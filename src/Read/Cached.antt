-- ===== src/Read/Cached.antt =====
-- `CacheManager` as the cache of `caching_read`, while it has an empty slot for each round.
use os_ex.Common.{
  Ensures-mono, Option, Ensures, ℕ, suc, ◌+◌, ◌-◌, ◌≡◌, ◌∙◌, ◌<◌, ◌≤◌, ◌⊎◌, refl, sym, subst, true,
  false, inl, inr, none, some, ◌++◌, append_assoc, arith, All-mono, done,
}
use os_ex.Common.Int.{eqb_ℤ}
use os_ex.Block.{BlockId, Buffer, Text, int_max, null_block, make_block}
use os_ex.Manager.{CacheManager, retrieve_buffer, insert_block}
use os_ex.Manager.Stems.{holds, packed}
use os_ex.Manager.Layout.{Stored, IsValid, stems}
use os_ex.Manager.Victim.{evicts_first}
use os_ex.Manager.Find.{find_block-IsValid}
use os_ex.Manager.Found.{CanCount}
use os_ex.Manager.Insertion.{insert_block-Inserted, add_absent}
use os_ex.Manager.Spare.{spare}
use os_ex.Manager.Load.{Kept, touch-Kept}
use os_ex.Manager.Fill.{evicts_first-packed, add_block-Kept}
use os_ex.Read.{manager_cache}
use os_ex.Read.Fetch.{CacheLaws}
use os_ex.Read.Wherever.{SafeCache}
use os_ex.Manager.Wherever.{IsStored, retrieve_buffer-Ensures, insert_block-Ensures}

-- What a block holds is what the file has.
abbrev pub Backed : (BlockId → Buffer) → Stored
Backed content k y = holds k ≡ true → y ≡ some (content k)

-- A well-formed manager with an empty slot for each of `n` calls, and counts that can grow by `n`.
pub record IsPrepared (content : BlockId → Buffer) (a b c n : ℕ) (m : CacheManager) : Type 0 where
  pub valid : IsValid (Backed content) a b c m
  pub slots : ℕ
  pub greatest : ℕ
  pub kept : Kept slots greatest m
  pub room : n ≤ slots
  pub low : n + greatest ≤ int_max
  pub positive : 1 ≤ greatest

pub not_null : (k : BlockId) → holds k ≡ true → eqb_ℤ k.block_number null_block ≡ false
not_null k h = ground arith

module _ (content : BlockId → Buffer) (a b c : ℕ) (ha : 1 ≤ a) (hc : 2 ≤ c) where
  IsPrepared-CanCount : (n : ℕ) (m : CacheManager) → IsPrepared content a b c (suc n) m → CanCount m
  IsPrepared-CanCount n m i =
      All-mono (λ x. x.item.ref_count ≤ i.greatest) (λ x. x.item.ref_count < int_max)
        (λ x h. omega (arith, i.low)) m.cache_chain i.kept.1

  abbrev pub Found : ℕ → BlockId → CacheManager → Type 0
  Found n k m =
      ((m' : CacheManager) × (retrieve_buffer k m ≡ done (none, m'))
        × IsPrepared content a b c (suc n) m'
        × (m'.blocks_map k ≡ none))
      ⊎ ((m' : CacheManager) × (retrieve_buffer k m ≡ done (some (content k), m'))
          × IsPrepared content a b c n m')

  pub retrieve_buffer-IsPrepared :
      (n : ℕ) (k : BlockId) (m : CacheManager)
      → holds k ≡ true
      → IsPrepared content a b c (suc n) m
      → Found n k m
  unfolding retrieve_buffer
  retrieve_buffer-IsPrepared n k m real i =
      elim (find_block-IsValid (Backed content) a b c k m ha i.valid (IsPrepared-CanCount n m i)) [
        | inl (e, runs) ↦ inl (m, rw runs, i, e)
        | inr (it, e, h, runs) ↦
            let kept =
              subst (Ensures (λ r. Kept i.slots (suc i.greatest) r.1)) h.runs
                (touch-Kept i.slots i.greatest k it m i.kept) in
            inr (
              h.after,
              rw (runs, h.found, h.stored real),
              record {
                valid = h.valid;
                slots = i.slots;
                greatest = suc i.greatest;
                kept = kept;
                room = omega (arith, i.room);
                low = omega (arith, i.low);
                positive = omega arith;
              },
            )
      ]

  old_keeps_first :
      (n : ℕ) (m : CacheManager) (i : IsPrepared content a b c (suc n) m)
      → evicts_first i.valid.old ≡ false
  old_keeps_first n m i =
      let v = i.valid in
      let whole : v.new ++ (v.mid ++ v.old) ≡ (v.new ++ v.mid) ++ v.old = simp append_assoc in
      evicts_first-packed (v.new ++ v.mid) v.old
        (subst (λ z. packed (stems z) ≡ true) whole v.layout.sound.filled)
        (subst (λ z. 1 ≤ spare z) (v.layout.chain ∙ whole) (omega (arith, i.kept.0, i.room)))
        (omega (arith, v.old_length))

  pub insert_block-IsPrepared :
      (n : ℕ) (k : BlockId) (path : Text) (m : CacheManager)
      → holds k ≡ true
      → IsPrepared content a b c (suc n) m
      → m.blocks_map k ≡ none
      → (m' : CacheManager) × (insert_block k.file_id k.block_number (content k) path m ≡ done m')
        × IsPrepared content a b c n m'
  insert_block-IsPrepared n k path m real i absent =
      let v = i.valid in
      let x =
        insert_block-Inserted (Backed content) a b c k.file_id k.block_number (content k) path m v
          (omega arith) (not_null k real) (λ h. refl) absent (old_keeps_first n m i) in
      let block = make_block k.file_id k.block_number (some (content k)) (some path) in
      let full = subst (λ z. packed (stems z) ≡ true) (sym v.layout.chain) v.layout.sound.filled in
      let kept =
        add_block-Kept (i.slots - 1) i.greatest block m full real i.positive
          (omega (arith, i.kept.0, i.room), i.kept.1) in
      (
        x.after,
        x.runs,
        record {
          valid = x.valid;
          slots = i.slots - 1;
          greatest = i.greatest;
          kept =
              subst (Ensures (Kept (i.slots - 1) i.greatest))
                (sym (add_absent k.file_id k.block_number (content k) path m absent) ∙ x.runs) kept;
          room = omega (arith, i.room);
          low = omega (arith, i.low);
          positive = i.positive;
        },
      )

  abbrev pub manager_laws : CacheLaws manager_cache content
  manager_laws = record {
    Inv = λ n m. IsPrepared content a b c n m;
    Absent = λ k m. m.blocks_map k ≡ none;
    retrieve_law = retrieve_buffer-IsPrepared;
    insert_law = insert_block-IsPrepared;
  }

-- `CacheManager` with any number of slots and any counts, wherever it goes on.
module _ (content : BlockId → Buffer) (a b c : ℕ) (ha : 1 ≤ a) (hc : 1 ≤ c) where
  stored_data :
      (k : BlockId) (o : Option Buffer) (y : Buffer)
      → holds k ≡ true
      → IsStored (Backed content) k o
      → o ≡ some y
      → y ≡ content k
  stored_data k none y real h e = cc
  stored_data k (some x) y real h e = let at = h real in cc

  pub retrieve_stored :
      (k : BlockId) (m : CacheManager)
      → holds k ≡ true
      → IsValid (Backed content) a b c m
      → Ensures
          (λ r. ((y : Buffer) → r.0 ≡ some y → y ≡ content k) × IsValid (Backed content) a b c r.1)
          (retrieve_buffer k m)
  retrieve_stored k m real v =
      Ensures-mono (λ r. IsStored (Backed content) k r.0 × IsValid (Backed content) a b c r.1)
        (λ r. ((y : Buffer) → r.0 ≡ some y → y ≡ content k) × IsValid (Backed content) a b c r.1)
        (λ r h. ((λ y e. stored_data k r.0 y real h.0 e), h.1)) (retrieve_buffer k m)
        (retrieve_buffer-Ensures (Backed content) a b c m v k ha)

  abbrev pub manager_safe : SafeCache manager_cache content
  manager_safe = record {
    Inv = IsValid (Backed content) a b c;
    retrieve_law = retrieve_stored;
    insert_law = λ k path m real v.
        insert_block-Ensures (Backed content) a b c m v k.file_id k.block_number (content k) path ha
          hc (not_null k real) (λ h. refl);
  }
