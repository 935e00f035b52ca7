-- ===== src/Policy/Lookup.antt =====
-- `findBlock` and `retrieveBuffer` do what the policy says of a lookup.
use os_ex.Common.{
  ℕ, suc, ◌-◌, ◌≡◌, ◌∙◌, ◌≤◌, refl, sym, ap, subst, true, false, inl, inr, Bool-cases, none, some,
  List, [], ◌∷◌, ◌++◌, All, arith, length, done,
}
use os_ex.Block.{BlockId, CacheBlock, get_block_id, same_id, same_id_iff, is_real}
use os_ex.Chain.{Node}
use os_ex.Manager.{CacheChain, CacheManager, retrieve_buffer}
use os_ex.Manager.Stems.{index_of, Unique}
use os_ex.Manager.Layout.{Stored, stems, IsValid}
use os_ex.Manager.Found.{CanCount}
use os_ex.Manager.Taken.{Taken}
use os_ex.Manager.Find.{find_block-IsValid}
use os_ex.Policy.{Entry, is_at, count_at, take_out, to_front, lookup}
use os_ex.Policy.View.{entry, view, view-append, length-view}

-- The well-formed manager has those entries.
abbrev pub Implements : Stored → (a b c : ℕ) → CacheManager → List Entry → Type 0
Implements P a b c m es = IsValid P a b c m × (view m.cache_chain ≡ es)

abbrev IsElsewhere : BlockId → List Entry → Type 0
IsElsewhere k = All (λ e. is_at k e ≡ false)

take_out-none : (a : ℕ) (k : BlockId) (es : List Entry) → IsElsewhere k es → take_out a k es ≡ none
unfolding take_out
take_out-none a k [] h = refl
take_out-none a k (e ∷ es) h = rw (h.0, take_out-none (a - 1) k es h.1)

take_out-some :
    (a : ℕ) (k : BlockId) (xs : List Entry) (e : Entry) (ys : List Entry)
    → IsElsewhere k xs
    → is_at k e ≡ true
    → take_out a k (xs ++ (e ∷ ys)) ≡ some (count_at (a - length xs) e, xs ++ ys)
unfolding take_out
take_out-some a k [] e ys h at =
    let same : a ≡ a - 0 = omega arith in rw at (ap (λ n. some (count_at n e, ys)) same)
take_out-some a k (x ∷ xs) e ys h at =
    let same : a - 1 - length xs ≡ a - suc (length xs) = omega arith in
    rw (h.0, take_out-some (a - 1) k xs e ys h.1 at)
      (ap (λ n. some (count_at n e, x ∷ (xs ++ ys))) same)

IsElsewhere-none :
    (k : BlockId) (c : CacheChain) → index_of k (stems c) ≡ none → IsElsewhere k (view c)
IsElsewhere-none k [] e = tt
IsElsewhere-none k (n ∷ c) e = elim (Bool-cases (is_at k (entry n.item))) [
  | inl at ↦ cc
  | inr not_at ↦ (not_at, IsElsewhere-none k c (ground arith))
]

-- A block that stands in one node only is not in front of it.
not_before :
    (k : BlockId) (xs : CacheChain) (h : Node CacheBlock) (ys : CacheChain)
    → index_of k (stems (xs ++ (h ∷ ys))) ≡ none
    → is_at k (entry h.item) ≡ false
not_before k [] h ys e = ground arith
not_before k (x ∷ xs) h ys e = ground (arith, not_before k xs h ys)

IsElsewhere-front :
    (xs : CacheChain) (h : Node CacheBlock) (ys : CacheChain)
    → Unique (stems (xs ++ (h ∷ ys)))
    → is_real h.item ≡ true
    → IsElsewhere (get_block_id h.item) (view xs)
IsElsewhere-front [] h ys u r = tt
IsElsewhere-front (x ∷ xs) h ys u r = (
  elim (Bool-cases (same_id (get_block_id x.item) (get_block_id h.item))) [
    | inl same ↦
        let k = get_block_id h.item in
        let gone : is_at k (entry h.item) ≡ false =
          subst (λ j. is_at j (entry h.item) ≡ false) ((same_id_iff (get_block_id x.item) k).0 same)
            (not_before (get_block_id x.item) xs h ys u.0) in
        let self : same_id k k ≡ true = (same_id_iff k k).1 refl in
        let here : is_at k (entry h.item) ≡ true = ground (arith, self, r) in cc
    | inr other ↦ ground arith
  ],
  IsElsewhere-front xs h ys u.1 r,
)

cons_inj : {A : Type 0} (x y : A) (xs ys : List A) → x ∷ xs ≡ y ∷ ys → (x ≡ y) × (xs ≡ ys)
cons_inj x y xs ys e = (cc, cc)

module _ (P : Stored) (a b c : ℕ) (k : BlockId) (m : CacheManager) (es : List Entry)
    (i : Implements P a b c m es) where
  pub lookup-absent : m.blocks_map k ≡ none → lookup a k es ≡ (none, es)
  lookup-absent e =
      let l = i.0.layout in
      let absent : index_of k (stems m.cache_chain) ≡ none =
        ap (λ z. index_of k (stems z)) l.chain ∙ sym (l.sound.mapped k) ∙ e in
      ap (to_front es)
        (take_out-none a k es (subst (IsElsewhere k) i.1 (IsElsewhere-none k m.cache_chain absent)))

  pub lookup-taken :
      {after : CacheManager} (t : Taken a k m after)
      → take_out a k es
        ≡ some (count_at (a - length t.front) (entry t.here.item), view (t.front ++ t.behind))
  lookup-taken t =
      let l = i.0.layout in
      let unique = subst (λ z. Unique (stems z)) (sym l.chain ∙ t.whole) l.sound.unique in
      let away =
        subst (λ j. IsElsewhere j (view t.front)) t.key
          (IsElsewhere-front t.front t.here t.behind unique t.real) in
      let self = (same_id_iff (get_block_id t.here.item) k).1 t.key in
      let at : is_at k (entry t.here.item) ≡ true = rw t.real self in
      let listed : es ≡ view t.front ++ (entry t.here.item ∷ view t.behind) =
        sym i.1 ∙ ap view t.whole ∙ view-append t.front (t.here ∷ t.behind) in
      ap (take_out a k) listed
      ∙ take_out-some a k (view t.front) (entry t.here.item) (view t.behind) away at
      ∙ ap (λ n. some (count_at (a - n) (entry t.here.item), view t.front ++ view t.behind))
          (length-view t.front)
      ∙ ap (λ z. some (count_at (a - length t.front) (entry t.here.item), z))
          (sym (view-append t.front t.behind))

  -- `retrieveBuffer` implements the lookup of the policy: on a well-formed manager whose counts can
  -- grow, it gives the data that the lookup gives, or a null pointer where that finds no block, and
  -- leaves a well-formed manager that has the entries that the lookup leaves, in the same order,
  -- with the same counts.
  pub retrieve_buffer-lookup :
      1 ≤ a
      → CanCount m
      → (m' : CacheManager) × (retrieve_buffer k m ≡ done ((lookup a k es).0, m'))
        × Implements P a b c m' (lookup a k es).1
  unfolding retrieve_buffer
  retrieve_buffer-lookup ha few = elim (find_block-IsValid P a b c k m ha i.0 few) [
    | inl (e, runs) ↦ rw (lookup-absent e) (m, rw runs, i)
    | inr (it, e, h, runs) ↦
        let t = h.taken in
        let (same, others) = cons_inj _ _ _ _ (sym (ap view h.at_front) ∙ t.viewed) in
        let found = ap (to_front es) (lookup-taken t) in
        rw found (
          h.after,
          rw (runs, h.found) (ap (λ e. done (e.content, h.after)) same),
          (h.valid, t.viewed),
        )
  ]
