-- ===== src/Manager/Find.antt =====
-- `findBlock` and `retrieveBuffer` on a well-formed manager.
use os_ex.Common.{ℕ, ◌≡◌, ◌∙◌, ◌≤◌, refl, inl, inr, ◌⊎◌, Option, none, some, done}
use os_ex.Block.{BlockId, Buffer}
use os_ex.Manager.{CacheManager, put, touch, find_block, retrieve_buffer}
use os_ex.Manager.Layout.{Stored, IsValid}
use os_ex.Manager.Found.{CanCount, Hit, hit}

-- A block that the map does not have is not found.
pub find_block_miss :
    (k : BlockId) (m : CacheManager) → m.blocks_map k ≡ none → find_block k m ≡ done (none, m)
unfolding find_block
find_block_miss k m e = rw (e, find_block)

pub find_block_hit :
    (k : BlockId) (m : CacheManager) {it : ℕ}
    → m.blocks_map k ≡ some it
    → find_block k m ≡ touch k it m
unfolding find_block
find_block_hit k m e = rw (e, find_block)

-- `findBlock` on a well-formed manager whose counts can grow: it is `end()` and nothing changes
-- exactly where the map has no such block; else it names a node at the head that holds the block,
-- with the data that it was stored with, the manager stays well formed, and the map keeps every
-- other entry.
pub find_block-IsValid :
    (P : Stored) (a b c : ℕ) (k : BlockId) (m : CacheManager)
    → 1 ≤ a
    → IsValid P a b c m
    → CanCount m
    → ((m.blocks_map k ≡ none) × (find_block k m ≡ done (none, m)))
      ⊎ ((it : ℕ) × (m.blocks_map k ≡ some it)
          × (h : Hit P a b c k it m) × (find_block k m ≡ done (some m.next_id, h.after)))
find_block-IsValid P a b c k m ha v few = by_map (m.blocks_map k) refl
  where
    by_map :
        (o : Option ℕ)
        → m.blocks_map k ≡ o
        → ((m.blocks_map k ≡ none) × (find_block k m ≡ done (none, m)))
          ⊎ ((it : ℕ) × (m.blocks_map k ≡ some it)
              × (h : Hit P a b c k it m) × (find_block k m ≡ done (some m.next_id, h.after)))
    by_map none e = inl (e, find_block_miss k m e)
    by_map (some it) e =
        let h = hit P a b c k it m v few ha e in inr (it, e, h, find_block_hit k m e ∙ h.runs)

-- `retrieveBuffer` on a well-formed manager whose counts can grow: a null pointer and no change
-- where the map does not have the block; else the data that the block was stored with, from a
-- manager that is well formed still and has the same blocks.
pub retrieve_buffer-IsValid :
    (P : Stored) (a b c : ℕ) (k : BlockId) (m : CacheManager)
    → 1 ≤ a
    → IsValid P a b c m
    → CanCount m
    → ((m.blocks_map k ≡ none) × (retrieve_buffer k m ≡ done (none, m)))
      ⊎ ((buff : Option Buffer) × (m' : CacheManager) × (retrieve_buffer k m ≡ done (buff, m'))
          × P k buff
          × IsValid P a b c m'
          × ((j : BlockId) → m'.blocks_map j ≡ put k (some m.next_id) m.blocks_map j))
unfolding retrieve_buffer
retrieve_buffer-IsValid P a b c k m ha v few = elim (find_block-IsValid P a b c k m ha v few) [
  | inl (e, runs) ↦ inl (e, rw runs)
  | inr (it, e, h, runs) ↦
      inr (h.block.buff, h.after, rw (runs, h.found), h.stored, h.valid, h.mapped)
]
