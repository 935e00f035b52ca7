-- ===== src/Read.antt =====
-- The loop of `caching_read` in CachingFileSystem.cpp: blocks from the cache or from the file into
-- the buffer of the caller.
pub mod Fetch
pub mod Aligned
pub mod Wherever
pub mod Anywhere
pub mod File
pub mod Slice
pub mod Crossing
pub mod Cached
mod Tests
use os_ex.Common.{
  ℕ, zero, suc, ◌+◌, ◌-◌, ◌*◌, ◌^◌, Bool, Option, none, some, List, [], ◌++◌, length, take, drop,
  Outcome, done, bad_copy, int_overflow, require, ◌>>=◌, ◌>>◌, ◌==◌, ltb, leb, if◌then◌else◌,
}
use os_ex.Common.Int.{ℤ, pos}
use os_ex.Block.{BlockId, Buffer, Text}
use os_ex.Manager.{CacheManager, retrieve_buffer, insert_block}

-- What a system call gives: a value, or -1 and an `errno`.
pub data Call {ℓ} (A : Type ℓ) : Type ℓ where
  gives : A → Call A
  fails : ℕ → Call A

-- The cache as the loop uses it.
pub record BlockCache : Type 1 where
  pub State : Type 0
  pub retrieve : BlockId → State → Outcome (Option Buffer × State)
  pub insert : ℤ → ℤ → Buffer → Text → State → Outcome State

abbrev pub manager_cache : BlockCache
manager_cache = record { State = CacheManager; retrieve = retrieve_buffer; insert = insert_block }

-- What the loop does not change: the file, the blocks from `first_block` up to `last_block`, the
-- offset within the first, and the size of the caller's buffer.
pub record Request : Type 0 where
  pub ino : ℤ
  pub block_size : ℕ
  pub first_block : ℕ
  pub last_block : ℕ
  pub first_offset : ℕ
  pub size : ℕ
  pub path : Text

-- The variables of the loop: the bytes copied so far, whose number is both `res` and `buf_prog`,
-- `remaining_data`, which no round takes below 0, and `pread_ret`.
pub record Progress (S : Type 0) : Type 0 where
  pub state : S
  pub out : Buffer
  pub remaining : ℕ
  pub pread_ret : ℕ

-- The variables before the first round.
abbrev pub start : {S : Type 0} → S → ℕ → Progress S
start s count = record { state = s; out = []; remaining = count; pread_ret = 0 }

-- A step goes on with a value, or the handler returns the `errno` of `pread`.
pub data Step (S A : Type 0) : Type 0 where
  next : A → Step S A
  stop : ℕ → S → Step S A

module _ (cache : BlockCache) (pread : ℕ → ℕ → Call Buffer) (r : Request) where
  open cache use {State, retrieve, insert}

  -- After a miss: the block from the file, into the cache.
  unfoldable pub load_block : ℕ → Progress State → Outcome (Step State (Buffer × Progress State))
  load_block block p = do
    require (ltb (block * r.block_size) (2 ^ 31)) int_overflow
    elim (pread r.block_size (block * r.block_size)) [
      | fails errno ↦ done (stop errno p.state)
      | gives bytes ↦ do
        s ← insert r.ino (pos block) bytes r.path p.state
        done (next (bytes, record p { state = s; pread_ret = length bytes }))
    ]

  -- A null pointer is a miss.
  unfoldable pub fetch : ℕ → Progress State → Outcome (Step State (Buffer × Progress State))
  fetch block p = do
    (found, s) ← retrieve (record { file_id = r.ino; block_number = pos block }) p.state
    let at = record p { state = s }
    elim found [ none ↦ load_block block at | some bytes ↦ done (next (bytes, at)) ]

  -- `block_offset`
  abbrev pub offset_in : ℕ → ℕ
  offset_in block = if block == r.first_block then r.first_offset else 0

  -- `size_to_copy`
  abbrev pub size_to_copy : ℕ → Progress State → ℕ
  size_to_copy block p =
      if block + 1 == r.last_block
      then p.remaining
      else if block == r.first_block
      then (if p.pread_ret == 0 then r.block_size - r.first_offset else p.pread_ret)
      else r.block_size

  -- `memcpy`, from the bytes that the block's buffer has, to the place that the caller's has.
  unfoldable pub copy_block : ℕ → Buffer → Progress State → Outcome (Progress State)
  copy_block block bytes p = do
    let from = offset_in block
    let count = size_to_copy block p
    require (leb (from + count) (length bytes)) bad_copy
    require (leb (length p.out + count) r.size) bad_copy
    done (record p { out = p.out ++ take count (drop from bytes); remaining = p.remaining - count })

  -- The rounds that are left, from the block on.
  unfoldable pub read_blocks : ℕ → ℕ → Progress State → Outcome (Step State (Progress State))
  read_blocks zero block p = done (next p)
  read_blocks (suc rounds) block p = do
    fetched ← fetch block p
    elim fetched [
      | stop errno s ↦ done (stop errno s)
      | next (bytes, p') ↦ do p'' ← copy_block block bytes p'; read_blocks rounds (suc block) p''
    ]
