-- ===== src/Read/Tests.antt =====
-- Reads with a cache that holds nothing, as instances of the theorems.
use os_ex.Common.{undefined, bad_copy, ℕ, ◌≡◌, refl, none, [], ◌∷◌, take, drop, arith, inl, done}
use os_ex.Common.Int.{ℤ, pos, negsuc}
use os_ex.Block.{BlockId, Buffer}
use os_ex.Read.{Call, gives, BlockCache, Request, Progress, start, next, read_blocks}
use os_ex.Read.Fetch.{CacheLaws, Shows, file_block}
use os_ex.Read.Aligned.{read_blocks-aligned}
use os_ex.Read.Crossing.{read_file-crossing}
use os_ex.Read.File.{Stat, read_file, read_file-aligned}

abbrev file : Buffer
file = 1 ∷ 2 ∷ 3 ∷ 4 ∷ 5 ∷ []

abbrev no_cache : BlockCache
no_cache = record {
  State = Unit {0};
  retrieve = λ k s. done (none, s);
  insert = λ f n b p s. done s;
}

abbrev two_blocks : Request
two_blocks = record {
  ino = pos 7;
  block_size = 2;
  first_block = 1;
  last_block = 3;
  first_offset = 0;
  size = 4;
  path = [];
}

abbrev pread : ℕ → ℕ → Call Buffer
pread count offset = gives (take count (drop offset file))

abbrev numbered : ℤ → Buffer
numbered (pos n) = file_block 2 file n
numbered (negsuc n) = []

abbrev content : BlockId → Buffer
content k = numbered k.block_number

no_cache-CacheLaws : CacheLaws no_cache content
no_cache-CacheLaws = record {
  Inv = λ n s. Unit {0};
  Absent = λ k s. Unit {0};
  retrieve_law = λ n k s real inv. inl (s, refl, tt, tt);
  insert_law = λ n k path s real inv absent. (s, refl, tt);
}

file-Shows : Shows pread content two_blocks.ino two_blocks.block_size file
file-Shows = record {
  small = omega arith;
  positive = omega arith;
  pread_block = λ b h. refl;
  content_block = λ b. refl;
}

read_blocks-aligned_example :
    (after : Progress Unit) × (read_blocks no_cache pread two_blocks 2 1 (start tt 3)
      ≡ done (next after))
    × (after.out ≡ 3 ∷ 4 ∷ 5 ∷ [])
    × Unit {0}
unfolding no_cache-CacheLaws
read_blocks-aligned_example =
    read_blocks-aligned no_cache pread two_blocks content no_cache-CacheLaws file file-Shows 1 3 tt
      refl refl (omega arith) (omega arith) (omega arith) (omega arith) tt

abbrev stat : Stat
stat = record { st_ino = 7; st_size = 5; st_blksize = 2 }

-- The bytes from offset 2 on, of which there are three.
read_file-aligned_example :
    (s' : Unit {0}) × (read_file no_cache pread stat [] 10 (pos 2) tt
      ≡ done (gives (3 ∷ 4 ∷ 5 ∷ []), s'))
    × Unit {0}
unfolding no_cache-CacheLaws
read_file-aligned_example =
    read_file-aligned no_cache pread stat [] content no_cache-CacheLaws file file-Shows 10 2 tt refl
      (omega arith) refl (omega arith) tt

-- Two bytes, one of each block.
read_file-crossing_example : read_file no_cache pread stat [] 2 (pos 1) tt ≡ undefined bad_copy
unfolding no_cache-CacheLaws
read_file-crossing_example =
    read_file-crossing no_cache pread stat [] content no_cache-CacheLaws file file-Shows 2 1 tt refl
      (omega arith) (omega arith) (omega arith) (omega arith) (omega arith) tt
