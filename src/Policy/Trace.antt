-- ===== src/Policy/Trace.antt =====
-- Runs of lookups and insertions, one after the other, as `caching_read` makes them.
use os_ex.Common.{
  zero, ℕ, suc, ◌+◌, ◌-◌, ◌≡◌, ◌∙◌, ◌<◌, ◌≤◌, refl, sym, ap, subst, true, false, inl, inr, Option,
  none, some, List, [], ◌∷◌, All, All-mid, arith, length, drop, map, Outcome, done, ◌>>=◌,
}
use os_ex.Common.Int.{eqb_ℤ}
use os_ex.Block.{BlockId, Buffer, Text, make_block, null_block, int_max}
use os_ex.Manager.{CacheChain, CacheManager, retrieve_buffer, insert_block}
use os_ex.Manager.Stems.{holds}
use os_ex.Manager.Layout.{AllFit, Fit}
use os_ex.Manager.Found.{CanCount}
use os_ex.Manager.Taken.{Taken}
use os_ex.Manager.Find.{find_block_miss, find_block-IsValid}
use os_ex.Read.Cached.{Backed}
use os_ex.Policy.{Entry, count_at, to_front, lookup, drops_first, admit}
use os_ex.Policy.View.{entry, view}
use os_ex.Policy.Lookup.{Implements, lookup-absent, lookup-taken, retrieve_buffer-lookup}
use os_ex.Policy.Admit.{insert_block-admit}

-- A block of a file, and the path that the file was opened by.
abbrev pub Access : Type 0
Access = BlockId × Text

module _ (content : BlockId → Buffer) where
  -- A null pointer is a miss, after which the data goes into the cache.
  abbrev pub store_missing : Access → Option Buffer × CacheManager → Outcome (Buffer × CacheManager)
  store_missing (k, path) (some bytes, m) = done (bytes, m)
  store_missing (k, path) (none, m) = do
    m' ← insert_block k.file_id k.block_number (content k) path m
    done (content k, m')

  unfoldable pub access : Access → CacheManager → Outcome (Buffer × CacheManager)
  access q m = do found ← retrieve_buffer q.0 m; store_missing q found

  unfoldable pub accesses : List Access → CacheManager → Outcome (List Buffer × CacheManager)
  accesses [] m = done ([], m)
  accesses (q ∷ qs) m = do
    (bytes, m') ← access q m
    (rest, m'') ← accesses qs m'
    done (bytes ∷ rest, m'')

  -- The same for the policy, with the sizes of the new section and of what is before the old one.
  abbrev pub new_entry_of : Access → Entry
  new_entry_of (k, path) =
      entry (make_block k.file_id k.block_number (some (content k)) (some path))

  abbrev pub admit_missing : ℕ → Access → Option Buffer × List Entry → List Entry
  admit_missing n q (some bytes, es) = es
  admit_missing n q (none, es) = admit n (new_entry_of q) es

  abbrev pub policy_access : ℕ → ℕ → Access → List Entry → List Entry
  policy_access a n q es = admit_missing n q (lookup a q.0 es)

  abbrev pub policy_accesses : ℕ → ℕ → List Access → List Entry → List Entry
  policy_accesses a n [] es = es
  policy_accesses a n (q ∷ qs) es = policy_accesses a n qs (policy_access a n q es)

-- The counts can grow, and where a block is missing it is not the first of the old section that goes.
abbrev pub CanAccess : ℕ → ℕ → BlockId → List Entry → Type 0
CanAccess a n k es =
    All (λ e. e.count < int_max) es × ((lookup a k es).0 ≡ none → drops_first (drop n es) ≡ false)

abbrev pub CanRun : (BlockId → Buffer) → ℕ → ℕ → List Access → List Entry → Type 0
CanRun content a n [] es = Unit
CanRun content a n (q ∷ qs) es =
    (holds q.0 ≡ true)
    × CanAccess a n q.0 es
    × CanRun content a n qs (policy_access content a n q es)

CanCount-view :
    (c : CacheChain)
    → All (λ e. e.count < int_max) (view c)
    → All (λ n. n.item.ref_count < int_max) c
CanCount-view [] h = tt
CanCount-view (n ∷ c) h = (h.0, CanCount-view c h.1)

content-count_at : (n : ℕ) (e : Entry) → (count_at n e).content ≡ e.content
content-count_at zero e = refl
content-count_at (suc n) e = refl

admit_missing-some :
    (content : BlockId → Buffer) (n : ℕ) (q : Access) (y : Buffer) (r : Option Buffer × List Entry)
    → r.0 ≡ some y
    → admit_missing content n q r ≡ r.1
admit_missing-some content n q y (none, es) e = cc
admit_missing-some content n q y (some x, es) e = refl

not_null : (k : BlockId) → holds k ≡ true → eqb_ℤ k.block_number null_block ≡ false
not_null k h = ground arith

module _ (content : BlockId → Buffer) (a b c : ℕ) (ha : 1 ≤ a) (hc : 1 ≤ c) (k : BlockId)
    (path : Text) (real : holds k ≡ true) (m : CacheManager) (es : List Entry)
    (i : Implements (Backed content) a b c m es) (can : CanAccess a (a + b) k es) where
  counts : CanCount m
  counts = CanCount-view m.cache_chain (subst (All (λ e. e.count < int_max)) (sym i.1) can.0)

  lookup-present : {after : CacheManager} → Taken a k m after → (lookup a k es).0 ≡ some (content k)
  lookup-present t =
      let l = i.0.layout in
      let fit =
        All-mid (Fit (Backed content)) t.front t.here t.behind
          (subst (AllFit (Backed content)) (sym l.chain ∙ t.whole) l.fit) in
      let bytes : t.here.item.buff ≡ some (content k) =
        fit.2 (t.real) ∙ ap (λ j. some (content j)) t.key in
      ap (λ r. (to_front es r).0) (lookup-taken (Backed content) a b c k m es i t)
      ∙ content-count_at (a - length t.front) (entry t.here.item)
      ∙ bytes

  retrieve_absent : m.blocks_map k ≡ none → retrieve_buffer k m ≡ done (none, m)
  unfolding retrieve_buffer
  retrieve_absent e = rw (find_block_miss k m e)

  -- What the cache does is what the policy does, with the data of the block for the reader.
  access-policy_access :
      (m' : CacheManager) × (access content (k, path) m ≡ done (content k, m'))
      × Implements (Backed content) a b c m' (policy_access content a (a + b) (k, path) es)
  unfolding access
  access-policy_access = elim (find_block-IsValid (Backed content) a b c k m ha i.0 counts) [
    | inl (e, found) ↦
        let none_found = lookup-absent (Backed content) a b c k m es i e in
        let (m', runs, i') =
          insert_block-admit (Backed content) a b c k.file_id k.block_number (content k) path m es i
            hc (not_null k real) (λ h. refl) e (can.1 (ap (λ r. r.0) none_found)) in
        rw none_found (m', rw (retrieve_absent e, runs), i')
    | inr (it, e, h, found) ↦
        let (m', runs, i') = retrieve_buffer-lookup (Backed content) a b c k m es i ha counts in
        let held = lookup-present h.taken in
        let stays = admit_missing-some content (a + b) (k, path) (content k) (lookup a k es) held in
        (m', rw (runs, held), (i'.0, i'.1 ∙ sym stays))
  ]

-- A run of accesses through the cache gives the data of each block, and leaves a well-formed manager
-- with the entries of the same run of the policy, in the same order and with the same counts. The
-- cache is well formed before and holds nothing but data of the blocks, no block's number is -1, no
-- count is at its greatest value, and no block that is missing drops the first entry of the old
-- section, each time in the run of the policy.
pub accesses-policy_accesses :
    (content : BlockId → Buffer) (a b c : ℕ) (qs : List Access) (m : CacheManager) (es : List Entry)
    → 1 ≤ a
    → 1 ≤ c
    → Implements (Backed content) a b c m es
    → CanRun content a (a + b) qs es
    → (m' : CacheManager) × (accesses content qs m ≡ done (map (λ q. content q.0) qs, m'))
      × Implements (Backed content) a b c m' (policy_accesses content a (a + b) qs es)
unfolding accesses
accesses-policy_accesses content a b c [] m es ha hc i can = (m, refl, i)
accesses-policy_accesses content a b c ((k, path) ∷ qs) m es ha hc i (real, now, later) =
    let (m1, runs1, i1) = access-policy_access content a b c ha hc k path real m es i now in
    let (m2, runs2, i2) =
      accesses-policy_accesses content a b c qs m1 (policy_access content a (a + b) (k, path) es) ha
        hc i1 later in
    (m2, rw (runs1, runs2), i2)
