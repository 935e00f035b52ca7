-- ===== src/Manager.antt =====
-- CacheManager.h and CacheManager.cpp: the buffer cache. A method returns the manager as it leaves
-- it, beside its result, or has no meaning, or ends the process.
pub mod Stems
pub mod Layout
pub mod Bounds
pub mod Move
pub mod Hit
pub mod Victim
pub mod Room
pub mod Push
pub mod Insert
pub mod Insertion
pub mod Wherever
pub mod Construct
pub mod Spare
pub mod Load
pub mod Fill
pub mod Taken
pub mod Locate
pub mod Found
pub mod Find
mod Tests
use os_ex.Common.{
  ℕ, zero, suc, ◌+◌, Bool, Option, none, some, [], ◌∷◌, leb, if◌then◌else◌, Outcome, done,
  undefined, exited, bad_iterator, ◌>>=◌,
}
use os_ex.Common.Int.{ℤ, pos, pos_part, eqb_ℤ, ◌+ℤ◌, ◌-ℤ◌}
use os_ex.Block.{
  Section, new_section, middle_section, old_section, is_new_section, BlockId, same_id, Text, Buffer,
  CacheBlock, int_max, make_block, get_block_id, set_section, increment_ref_count, null_block,
  is_real,
}
use os_ex.Chain.{Chain, node, deref, modify, erase, retreat, nodes_from, back, pop_back}

abbrev pub CacheChain : Type 0
CacheChain = Chain CacheBlock

-- `std::unordered_map<BlockID, CacheChain::iterator>`, as the function that `find` computes; `none`
-- is its `end()`.
abbrev pub BlocksMap : Type 0
BlocksMap = BlockId → Option ℕ

-- `blocksMap[key] = value`, and `blocksMap.erase(key)` for no value.
abbrev pub put : BlockId → Option ℕ → BlocksMap → BlocksMap
put key value blocks j = if same_id key j then value else blocks j

-- `next_id` is the address that the next node gets. Addresses start at 1, and 0 is an iterator that
-- was never assigned.
pub record CacheManager : Type 0 where
  pub number_of_blocks : ℤ
  pub blocks_map : BlocksMap
  pub cache_chain : CacheChain
  pub middle_section_iter : ℕ
  pub old_section_iter : ℕ
  pub next_id : ℕ

-- The arithmetic of `double` that the program uses, which antt does not have: `(int) floor(f * n)`,
-- and the tests `floor(f * n) < 1`, `f >= 1` and `f + g > 1`.
pub record Doubles : Type 1 where
  pub Double : Type 0
  pub floor_times : Double → ℤ → ℤ
  pub floor_below_one : Double → ℤ → Bool
  pub at_least_one : Double → Bool
  pub sum_above_one : Double → Double → Bool

-- `new CacheBlock(-1, -1, nullptr, nullptr)`
abbrev pub empty_slot : CacheBlock
empty_slot = make_block null_block null_block none none

-- The first loop of the constructor, and the address after the last that it used.
unfoldable pub push_empty_slots : ℕ → CacheChain × ℕ
push_empty_slots zero = ([], 1)
push_empty_slots (suc n) = let (c, i) = push_empty_slots n in (node i empty_slot ∷ c, suc i)

-- The second loop of the constructor, from the counter `i` on: the two iterators.
unfoldable pub assign_bounds : ℤ → ℤ → ℕ → CacheChain → ℕ × ℕ → ℕ × ℕ
assign_bounds first_middle first_old i [] bounds = bounds
assign_bounds first_middle first_old i (n ∷ c) (middle, old) =
    assign_bounds first_middle first_old (i + 1) c (
      if eqb_ℤ (pos i) first_middle then n.id else middle,
      if eqb_ℤ (pos i) first_old then n.id else old,
    )

-- The constructor, with the sizes of the new and the old section computed.
unfoldable pub construct_sections : ℤ → ℤ → ℤ → CacheManager
construct_sections number_of_blocks new_section_size old_section_size =
    let middle_section_size = number_of_blocks -ℤ new_section_size -ℤ old_section_size in
    let (c, next) = push_empty_slots (pos_part number_of_blocks) in
    let (middle, old) =
      assign_bounds (new_section_size +ℤ pos 1) (new_section_size +ℤ middle_section_size +ℤ pos 1) 1
        c (0, 0) in
    record {
      number_of_blocks = number_of_blocks;
      blocks_map = λ _. none;
      cache_chain = c;
      middle_section_iter = middle;
      old_section_iter = old;
      next_id = next;
    }

unfoldable pub construct : (d : Doubles) → ℤ → d.Double → d.Double → CacheManager
construct d number_of_blocks f_old f_new =
    construct_sections number_of_blocks (d.floor_times f_new number_of_blocks)
      (d.floor_times f_old number_of_blocks)

-- `middleSectionIter--; (*middleSectionIter)->setSection(middleSection);`
unfoldable pub lower_middle : CacheManager → Outcome CacheManager
lower_middle m = do
  it ← retreat m.middle_section_iter m.cache_chain
  c ← modify it (set_section middle_section) m.cache_chain
  done (record m { cache_chain = c; middle_section_iter = it })

-- `oldSectionIter--; (*oldSectionIter)->setSection(oldSection);`
unfoldable pub lower_old : CacheManager → Outcome CacheManager
lower_old m = do
  it ← retreat m.old_section_iter m.cache_chain
  c ← modify it (set_section old_section) m.cache_chain
  done (record m { cache_chain = c; old_section_iter = it })

-- The `switch` of `findBlock`.
unfoldable pub correct_bounds : Section → CacheManager → Outcome CacheManager
correct_bounds Section.new_section m = done m
correct_bounds Section.middle_section m = lower_middle m
correct_bounds Section.old_section m = do m' ← lower_middle m; lower_old m'

-- `if (section != newSection) incrementRefCount()`
unfoldable pub count_reference : ℕ → CacheManager → Outcome CacheManager
count_reference it m = do
  b ← deref it m.cache_chain
  counted ← if is_new_section b.section then done b else increment_ref_count b
  c ← modify it (λ _. counted) m.cache_chain
  done (record m { cache_chain = c })

-- The end of `findBlock`: the block goes to a new node at the head, the map follows, and the node
-- that it stood in goes.
unfoldable pub move_to_head : BlockId → ℕ → CacheManager → Outcome (Option ℕ × CacheManager)
move_to_head block_id it m = do
  b ← deref it m.cache_chain
  let head = m.next_id
  c ← modify head (set_section new_section) (node head b ∷ m.cache_chain)
  c' ← erase it c
  done (
    some head,
    record m {
      blocks_map = put block_id (some head) m.blocks_map;
      cache_chain = c';
      next_id = suc head;
    },
  )

-- `findBlock` on a block that the map has, at the node `it`.
unfoldable pub touch : BlockId → ℕ → CacheManager → Outcome (Option ℕ × CacheManager)
touch block_id it m = do
  counted ← count_reference it m
  b ← deref it counted.cache_chain
  bounded ← correct_bounds b.section counted
  move_to_head block_id it bounded

-- `findBlock`; `none` is `cacheChain.end()`.
unfoldable pub find_block : BlockId → CacheManager → Outcome (Option ℕ × CacheManager)
find_block block_id m = elim (m.blocks_map block_id) [
  | none ↦ done (none, m)
  | some it ↦ touch block_id it m
]

-- `return (*blockIter)->getBuff();`
abbrev pub buffer_at : Option ℕ × CacheManager → Outcome (Option Buffer × CacheManager)
buffer_at (none, m) = done (none, m)
buffer_at (some it, m) = do b ← deref it m.cache_chain; done (b.buff, m)

unfoldable pub retrieve_buffer : BlockId → CacheManager → Outcome (Option Buffer × CacheManager)
retrieve_buffer block_id m = do found ← find_block block_id m; buffer_at found

-- The loop of `insertBlock`: the last node whose count is the least and at most the count given, or
-- the candidate given.
unfoldable pub least_referenced : ℕ → Option ℕ → CacheChain → Option ℕ
least_referenced minimal candidate [] = candidate
least_referenced minimal candidate (n ∷ c) =
    let better = leb n.item.ref_count minimal in
    least_referenced (if better then n.item.ref_count else minimal)
      (if better then some n.id else candidate) c

-- An iterator that may never have been assigned.
abbrev pub assigned : Option ℕ → Outcome ℕ
assigned none = undefined bad_iterator
assigned (some it) = done it

-- The `else` of `insertBlock`.
unfoldable pub evict : CacheManager → Outcome CacheManager
evict m = do
  old ← nodes_from m.old_section_iter m.cache_chain
  it ← assigned (least_referenced int_max none old)
  b ← deref it m.cache_chain
  c ← erase it m.cache_chain
  done (record m { blocks_map = put (get_block_id b) none m.blocks_map; cache_chain = c })

-- The `if` of `insertBlock`.
unfoldable pub drop_last : CacheManager → Outcome CacheManager
drop_last m = do c ← pop_back m.cache_chain; done (record m { cache_chain = c })

unfoldable pub make_room : CacheManager → Outcome CacheManager
make_room m = do last ← back m.cache_chain; if is_real last then evict m else drop_last m

-- The new block at the head, and in the map.
abbrev pub push_block : CacheBlock → CacheManager → CacheManager
push_block b m = record m {
  blocks_map = put (get_block_id b) (some m.next_id) m.blocks_map;
  cache_chain = node m.next_id b ∷ m.cache_chain;
  next_id = suc m.next_id;
}

-- `insertBlock` on a block that is not in the cache.
unfoldable pub add_block : CacheBlock → CacheManager → Outcome CacheManager
add_block b m = do
  roomy ← make_room (push_block b m)
  bounded ← lower_middle roomy
  lower_old bounded

-- `exit(1)` where the block is in the cache.
abbrev pub add_if_absent : CacheBlock → Option ℕ × CacheManager → Outcome CacheManager
add_if_absent b (some it, m) = exited 1
add_if_absent b (none, m) = add_block b m

unfoldable pub insert_block : ℤ → ℤ → Buffer → Text → CacheManager → Outcome CacheManager
insert_block file_id block_number buff path m = do
  found ← find_block (record { file_id = file_id; block_number = block_number }) m
  add_if_absent (make_block file_id block_number (some buff) (some path)) found
