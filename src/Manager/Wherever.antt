-- ===== src/Manager/Wherever.antt =====
-- `retrieveBuffer` and `insertBlock` on any well-formed manager, wherever they go on: no count is too
-- great for this, and any block may go.
use os_ex.Common.{false, Ensures, ℕ, ◌≡◌, ◌≤◌, refl, Option, none, some, inl, inr, Bool-cases}
use os_ex.Common.Int.{ℤ, eqb_ℤ}
use os_ex.Block.{BlockId, Buffer, Text, null_block}
use os_ex.Manager.{CacheManager, retrieve_buffer, insert_block}
use os_ex.Manager.Layout.{Stored, IsValid}
use os_ex.Manager.Victim.{evicts_first}
use os_ex.Manager.Found.{hit_or_full}
use os_ex.Manager.Find.{find_block_miss, find_block_hit}
use os_ex.Manager.Insertion.{block_id, insert_block-Inserted, insert_block-undefined}

-- Data that is there was stored with the block.
abbrev pub IsStored : Stored → BlockId → Option Buffer → Type 0
IsStored P k none = Unit {0}
IsStored P k (some y) = P k (some y)

module _ (P : Stored) (a b c : ℕ) (m : CacheManager) (v : IsValid P a b c m) where
  pub retrieve_buffer-Ensures :
      (k : BlockId)
      → 1 ≤ a
      → Ensures (λ r. IsStored P k r.0 × IsValid P a b c r.1) (retrieve_buffer k m)
  unfolding retrieve_buffer
  retrieve_buffer-Ensures k ha = by_map (m.blocks_map k) refl
    where
      given : (y : Option Buffer) → P k y → IsStored P k y
      given none p = tt
      given (some y) p = p

      by_map :
          (o : Option ℕ)
          → m.blocks_map k ≡ o
          → Ensures (λ r. IsStored P k r.0 × IsValid P a b c r.1) (retrieve_buffer k m)
      by_map none e = rw (find_block_miss k m e) (tt, v)
      by_map (some it) e = elim (hit_or_full P a b c k it m v ha e) [
        | inl h ↦ rw (find_block_hit k m e, h.runs, h.found) (given h.block.buff h.stored, h.valid)
        | inr full ↦ rw (find_block_hit k m e, full.0) tt
      ]

  pub insert_block-Ensures :
      (file_id block_number : ℤ) (buff : Buffer) (path : Text)
      → 1 ≤ a
      → 1 ≤ c
      → eqb_ℤ block_number null_block ≡ false
      → P (block_id file_id block_number) (some buff)
      → Ensures (IsValid P a b c) (insert_block file_id block_number buff path m)
  unfolding insert_block
  insert_block-Ensures file_id block_number buff path ha hc real p =
      by_map (m.blocks_map (block_id file_id block_number)) refl
    where
      absent :
          m.blocks_map (block_id file_id block_number) ≡ none
          → Ensures (IsValid P a b c) (insert_block file_id block_number buff path m)
      absent e = elim (Bool-cases (evicts_first v.old)) [
        | inl first ↦
            rw (insert_block-undefined P a b c file_id block_number buff path m v hc real p e first)
              tt
        | inr kept ↦
            let x =
              insert_block-Inserted P a b c file_id block_number buff path m v hc real p e kept in
            rw x.runs x.valid
      ]

      by_map :
          (o : Option ℕ)
          → m.blocks_map (block_id file_id block_number) ≡ o
          → Ensures (IsValid P a b c) (insert_block file_id block_number buff path m)
      by_map none e = absent e
      by_map (some it) e = elim (hit_or_full P a b c (block_id file_id block_number) it m v ha e) [
        | inl h ↦ rw (find_block_hit (block_id file_id block_number) m e, h.runs) tt
        | inr full ↦ rw (find_block_hit (block_id file_id block_number) m e, full.0) tt
      ]
