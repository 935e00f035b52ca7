-- ===== src/Block.antt =====
-- CacheBlock.h and CacheBlock.cpp: one block of the cache.
use os_ex.Common.{
  ℕ, ◌+◌, ◌^◌, ◌-◌, ◌≡◌, ◌↔◌, Bool, true, false, ◌&&◌, Option, none, some, List, [], arith, ltb,
  if◌then◌else◌, Outcome, done, undefined, int_overflow, not,
}
use os_ex.Common.Int.{ℤ, eqb_ℤ, eqb_ℤ_iff, negsuc}

pub data Section : Type 0 where
  new_section middle_section old_section : Section

abbrev pub is_new_section : Section → Bool
is_new_section Section.new_section = true
is_new_section _ = false

-- `std::pair<int, int>`: the file's id and the number of the block.
pub record BlockId : Type 0 where
  pub file_id : ℤ
  pub block_number : ℤ

-- The equality of two pairs.
abbrev pub same_id : BlockId → BlockId → Bool
same_id a b = eqb_ℤ a.file_id b.file_id && eqb_ℤ a.block_number b.block_number

-- A text is the list of its bytes, without the final zero.
abbrev pub Text : Type 0
Text = List ℕ

-- The initialised bytes of the memory that a `char *` points to.
abbrev pub Buffer : Type 0
Buffer = List ℕ

-- `ref_count` is an `int` that starts at 1 and only grows, so it is a number; `buff` is `none` for
-- a null pointer.
pub record CacheBlock : Type 0 where
  pub ref_count : ℕ
  pub block_number : ℤ
  pub file_id : ℤ
  pub buff : Option Buffer
  pub section : Section
  pub path : Text

abbrev pub int_max : ℕ
int_max = 2 ^ 31 - 1

-- The constructor's `if (path != nullptr) this->path.append(path)`, on the empty path.
abbrev pub path_or_empty : Option Text → Text
path_or_empty none = []
path_or_empty (some p) = p

-- The constructor.
abbrev pub make_block : ℤ → ℤ → Option Buffer → Option Text → CacheBlock
make_block file_id block_number buff path = record {
  ref_count = 1;
  block_number = block_number;
  file_id = file_id;
  buff = buff;
  section = Section.new_section;
  path = path_or_empty path;
}

abbrev pub get_block_id : CacheBlock → BlockId
get_block_id b = record { file_id = b.file_id; block_number = b.block_number }

abbrev pub set_section : Section → CacheBlock → CacheBlock
set_section s b = record b { section = s }

abbrev pub set_path : Text → CacheBlock → CacheBlock
set_path p b = record b { path = p }

-- `refCount += 1` on an `int`.
abbrev pub increment_ref_count : CacheBlock → Outcome CacheBlock
increment_ref_count b =
    if ltb b.ref_count int_max
    then done (record b { ref_count = b.ref_count + 1 })
    else undefined int_overflow

-- NULL_BLOCK of CacheManager.cpp, which marks the number and the file of a slot that holds no block.
abbrev pub null_block : ℤ
null_block = negsuc 0

-- The test `getBlockNumber() != NULL_BLOCK`.
abbrev pub is_real : CacheBlock → Bool
is_real b = not (eqb_ℤ b.block_number null_block)

pub same_id_iff : (a b : BlockId) → (same_id a b ≡ true) ↔ (a ≡ b)
same_id_iff a b =
    ground (arith, eqb_ℤ_iff a.file_id b.file_id, eqb_ℤ_iff a.block_number b.block_number)
