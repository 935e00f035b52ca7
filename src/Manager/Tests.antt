-- ===== src/Manager/Tests.antt =====
-- Runs of `CacheManager` and instances of its theorems.
use os_ex.Common.{
  ◌++◌, ℕ, ◌≡◌, ◌⊎◌, ◌≤◌, refl, true, Option, none, some, [], ◌∷◌, arith, inl, inr, done, undefined,
  exited, bad_iterator, ◌>>=◌,
}
use os_ex.Common.Int.{pos, ◌+ℤ◌, ◌-ℤ◌}
use os_ex.Block.{make_block, Section, BlockId, CacheBlock, Buffer}
use os_ex.Chain.Zip.{ids}
use os_ex.Chain.{node, deref, modify, erase, retreat, retreat_from, nodes_from, back, pop_back}
use os_ex.Manager.{
  CacheManager, put, empty_slot, push_empty_slots, assign_bounds, construct_sections, lower_middle,
  lower_old, correct_bounds, count_reference, move_to_head, touch, find_block, retrieve_buffer,
  least_referenced, evict, drop_last, make_room, add_block, insert_block,
}
use os_ex.Manager.Stems.{index_of, Unique, packed}
use os_ex.Manager.Layout.{Stored, Fit, Tagged, stems, IsValid}
use os_ex.Manager.Construct.{construct_sections-IsValid}
use os_ex.Manager.Find.{find_block-IsValid, retrieve_buffer-IsValid}
use os_ex.Manager.Found.{Hit}
use os_ex.Manager.Insertion.{
  block_id, Inserted, insert_block-Inserted, insert_block-undefined, insert_block-exits,
}

program : Unit {0}
unfolding deref modify erase retreat retreat_from nodes_from back pop_back push_empty_slots
    assign_bounds construct_sections lower_middle lower_old correct_bounds count_reference
    move_to_head touch find_block retrieve_buffer least_referenced evict drop_last make_room
    add_block insert_block
program = tt

-- Block `n` of file `f` holds the two bytes `f` and `n`.
abbrev content : ℕ → ℕ → Buffer
content f n = f ∷ n ∷ []

abbrev Backed : Stored
Backed k y =
    (y ≡ none) ⊎ ((f : ℕ) × (n : ℕ) × (k ≡ block_id (pos f) (pos n)) × (y ≡ some (content f n)))

abbrev cached : ℕ → ℕ → ℕ → Section → CacheBlock
cached f n refs s = record {
  ref_count = refs;
  block_number = pos n;
  file_id = pos f;
  buff = some (content f n);
  section = s;
  path = [];
}

-- Four nodes: one in the new section, one in the middle section, and the two given.
abbrev with_old : CacheBlock → CacheBlock → CacheManager
with_old b b' =
    let c =
      node 4 (cached 1 0 1 Section.new_section)
      ∷ node 3 (cached 1 1 1 Section.middle_section)
      ∷ node 2 b
      ∷ node 1 b'
      ∷ [] in
    record {
      number_of_blocks = pos 4;
      blocks_map = λ k. index_of k (stems c);
      cache_chain = c;
      middle_section_iter = 3;
      old_section_iter = 2;
      next_id = 5;
    }

abbrev half_full : CacheManager
half_full = with_old (cached 2 0 2 Section.old_section) empty_slot

abbrev full : CacheManager
full = with_old (cached 2 0 1 Section.old_section) (cached 2 1 2 Section.old_section)

cached-Fit :
    (i f n refs : ℕ) (s : Section) → 1 ≤ refs → refs ≤ 9 → Fit Backed (node i (cached f n refs s))
cached-Fit i f n refs s h k = (h, omega arith, inr (f, n, refl, refl))

with_old-IsValid :
    (b b' : CacheBlock)
    → Unique (stems (with_old b b').cache_chain)
    → packed (stems (with_old b b').cache_chain) ≡ true
    → Tagged Section.old_section (node 2 b ∷ node 1 b' ∷ [])
    → Fit Backed (node 2 b)
    → Fit Backed (node 1 b')
    → IsValid Backed 1 1 2 (with_old b b')
with_old-IsValid b b' unique filled tagged f f' = record {
  new = node 4 (cached 1 0 1 Section.new_section) ∷ [];
  mid = node 3 (cached 1 1 1 Section.middle_section) ∷ [];
  old = node 2 b ∷ node 1 b' ∷ [];
  layout = record {
    chain = refl;
    sound = record {
      distinct = omega arith;
      fresh = omega arith;
      unique = unique;
      filled = filled;
      mapped = λ k. refl;
    };
    middle_at = refl;
    old_at = refl;
    new_tagged = (inr refl, tt);
    middle_tagged = (inr refl, tt);
    old_tagged = tagged;
    fit = (
      cached-Fit 4 1 0 1 Section.new_section (omega arith) (omega arith),
      (cached-Fit 3 1 1 1 Section.middle_section (omega arith) (omega arith), (f, (f', tt))),
    );
  };
  new_length = refl;
  middle_length = refl;
  old_length = refl;
}

half_full-IsValid : IsValid Backed 1 1 2 half_full
half_full-IsValid =
    with_old-IsValid _ _ (refl, (refl, (refl, (refl, tt)))) refl (inr refl, (inl refl, tt))
      (cached-Fit 2 2 0 2 Section.old_section (omega arith) (omega arith))
      (omega arith, omega arith, inl refl)

full-IsValid : IsValid Backed 1 1 2 full
full-IsValid =
    with_old-IsValid _ _ (refl, (refl, (refl, (refl, tt)))) refl (inr refl, (inr refl, tt))
      (cached-Fit 2 2 0 1 Section.old_section (omega arith) (omega arith))
      (cached-Fit 1 2 1 2 Section.old_section (omega arith) (omega arith))

-- A hit in the old section: both boundaries move, the count grows and the block comes first.
hit_old :
    (find_block (block_id (pos 2) (pos 1)) full >>= λ r. done (ids r.1.cache_chain))
    ≡ done (5 ∷ 4 ∷ 3 ∷ 2 ∷ [])
unfolding program
hit_old = refl

-- The first insertion into a cache of three with an old section of one is undefined.
small_old :
    insert_block (pos 7) (pos 0) [] [] (construct_sections (pos 3) (pos 1) (pos 1))
    ≡ undefined bad_iterator
unfolding program ◌+ℤ◌ ◌-ℤ◌
small_old = refl

construct_sections-IsValid_example :
    let m = construct_sections (pos 4) (pos 1) (pos 2) in
    IsValid Backed 1 1 2 m × ((k : BlockId) → m.blocks_map k ≡ none)
construct_sections-IsValid_example =
    construct_sections-IsValid Backed 1 1 2 (omega arith) (omega arith) (inl refl)

find_block-IsValid_example :
    let k = block_id (pos 2) (pos 1) in
    ((full.blocks_map k ≡ none) × (find_block k full ≡ done (none, full)))
    ⊎ ((it : ℕ) × (full.blocks_map k ≡ some it)
        × (h : Hit Backed 1 1 2 k it full) × (find_block k full ≡ done (some 5, h.after)))
find_block-IsValid_example =
    find_block-IsValid Backed 1 1 2 (block_id (pos 2) (pos 1)) full (omega arith) full-IsValid
      (omega arith)

retrieve_buffer-IsValid_example :
    let k = block_id (pos 2) (pos 1) in
    ((full.blocks_map k ≡ none) × (retrieve_buffer k full ≡ done (none, full)))
    ⊎ ((buff : Option Buffer) × (m' : CacheManager) × (retrieve_buffer k full ≡ done (buff, m'))
        × Backed k buff
        × IsValid Backed 1 1 2 m'
        × ((j : BlockId) → m'.blocks_map j ≡ put k (some 5) full.blocks_map j))
retrieve_buffer-IsValid_example =
    retrieve_buffer-IsValid Backed 1 1 2 (block_id (pos 2) (pos 1)) full (omega arith) full-IsValid
      (omega arith)

insert_block-Inserted_example :
    Inserted Backed 1 1 2
      (block_id (pos 3) (pos 0))
      half_full
      (make_block (pos 3) (pos 0) (some (content 3 0)) (some []))
      (half_full-IsValid.new ++ half_full-IsValid.mid)
      half_full-IsValid.old
      (insert_block (pos 3) (pos 0) (content 3 0) [] half_full)
unfolding half_full-IsValid with_old-IsValid
insert_block-Inserted_example =
    insert_block-Inserted Backed 1 1 2 (pos 3) (pos 0) (content 3 0) [] half_full half_full-IsValid
      (omega arith) refl (inr (3, 0, refl, refl)) refl refl

insert_block-undefined_example :
    insert_block (pos 3) (pos 0) (content 3 0) [] full ≡ undefined bad_iterator
unfolding full-IsValid with_old-IsValid
insert_block-undefined_example =
    insert_block-undefined Backed 1 1 2 (pos 3) (pos 0) (content 3 0) [] full full-IsValid
      (omega arith) refl (inr (3, 0, refl, refl)) refl refl

insert_block-exits_example : insert_block (pos 2) (pos 1) [] [] full ≡ exited 1
insert_block-exits_example =
    insert_block-exits Backed 1 1 2 (pos 2) (pos 1) [] [] full full-IsValid (omega arith)
      (omega arith) (ground arith)
