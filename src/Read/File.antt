-- ===== src/Read/File.antt =====
-- `caching_read` of CachingFileSystem.cpp between the test for the log and its result: what `fstat`
-- gives, the guards, the request, and the loop.
use os_ex.Common.{
  ℕ, zero, suc, ◌+◌, ◌-◌, ◌*◌, ◌/◌, ◌%◌, ◌^◌, min, ◌≡◌, ◌∙◌, ◌≤◌, ◌<◌, refl, sym, ap, subst, true,
  false, [], length, take, drop, take-nil, drop_all, take-min-length, length-drop, leb→le, arith,
  Outcome, done, bad_division, int_overflow, require, ◌>>=◌, ◌>>◌, ltb, leb, lt→ltb, Bool-cases,
  if◌then◌else◌, inl, inr,
}
use native.Mathlib.Nat.{div-add-mod', mod-lt, div-eq_of_lt}
use os_ex.Common.Int.{ℤ, pos, negsuc}
use os_ex.Block.{BlockId, Buffer, Text}
use os_ex.Read.{
  Call, gives, fails, BlockCache, Request, Progress, start, Step, next, stop, read_blocks,
}
use os_ex.Read.Fetch.{CacheLaws, Shows}
use os_ex.Read.Aligned.{read_blocks-aligned}

-- The fields of `struct stat` that the handler reads.
pub record Stat : Type 0 where
  pub st_ino : ℕ
  pub st_size : ℕ
  pub st_blksize : ℕ

-- A conversion to `int`, which keeps the low 32 bits.
abbrev pub to_int : ℕ → ℤ
to_int n = let low = n % 2 ^ 32 in if ltb low (2 ^ 31) then pos low else negsuc (2 ^ 32 - low - 1)

-- `remaining_data`, where the sum of size and offset is a `size_t`.
abbrev pub wanted : ℕ → ℕ → ℕ → ℤ
wanted file_size size offset =
    if ltb file_size ((size + offset) % 2 ^ 64) then pos (file_size - offset) else to_int size

-- `number_of_blocks`: the quotient of two `int`s, rounded up.
abbrev pub blocks_for : ℕ → ℕ → ℕ
blocks_for count block_size = (count + (block_size - 1)) / block_size

abbrev pub request : Stat → Text → ℕ → ℕ → ℕ → Request
request st path size offset count =
    let block_size = st.st_blksize in
    record {
      ino = to_int st.st_ino;
      block_size = block_size;
      first_block = offset / block_size;
      last_block = offset / block_size + blocks_for count block_size;
      first_offset = offset % block_size;
      size = size;
      path = path;
    }

module _ (cache : BlockCache) (pread : ℕ → ℕ → Call Buffer) where
  -- `return (int) res` with the bytes in the buffer, or `return -errno`.
  abbrev pub result : Step cache.State (Progress cache.State) → Call Buffer × cache.State
  result (next p) = (gives p.out, p.state)
  result (stop errno s) = (fails errno, s)

  -- No round is gone through where `remaining_data` is negative.
  unfoldable pub read_wanted :
      Stat → Text → ℕ → ℕ → ℤ → cache.State → Outcome (Call Buffer × cache.State)
  read_wanted st path size offset (negsuc n) s = done (gives [], s)
  read_wanted st path size offset (pos count) s = do
    let r = request st path size offset count
    after ← read_blocks cache pread r (blocks_for count st.st_blksize) r.first_block (start s count)
    done (result after)

  -- The offset is in the file or behind its end; a block size that is no `int` is out of the model.
  unfoldable pub read_from :
      Stat → Text → ℕ → ℕ → ℤ → cache.State → Outcome (Call Buffer × cache.State)
  read_from st path size offset (negsuc n) s = done (gives [], s)
  read_from st path size offset (pos file_size) s =
      if leb file_size offset then done (gives [], s) else (do
        require (ltb 0 st.st_blksize) bad_division
        require (ltb st.st_blksize (2 ^ 31)) int_overflow
        read_wanted st path size offset (wanted file_size size offset) s)

  unfoldable pub read_file : Stat → Text → ℕ → ℤ → cache.State → Outcome (Call Buffer × cache.State)
  read_file st path size (negsuc n) s = done (gives [], s)
  read_file st path size (pos offset) s = read_from st path size offset (to_int st.st_size) s

pub to_int-small : (n : ℕ) → n < 2 ^ 31 → to_int n ≡ pos n
to_int-small n h = ground arith

pub wanted-min :
    (file_size size offset : ℕ)
    → offset < file_size
    → file_size < 2 ^ 31
    → size + offset < 2 ^ 64
    → wanted file_size size offset ≡ pos (min size (file_size - offset))
wanted-min file_size size offset h small room = ground arith

-- Division rounded up, for any quotient and remainder.
ceil_bounds : (q r n m : ℕ) → q * m + r ≡ n + (m - 1) → r < m → (n ≤ q * m) × (q * m < n + m)
ceil_bounds q r n m e h = (omega (arith, e, h), omega (arith, e, h))

pub blocks_for_bounds : (n m : ℕ) → 1 ≤ m → (n ≤ blocks_for n m * m) × (blocks_for n m * m < n + m)
blocks_for_bounds n m h =
    ceil_bounds (blocks_for n m) ((n + (m - 1)) % m) n m (div-add-mod' (n + (m - 1)) m)
      (mod-lt (n + (m - 1)) (omega arith))

module _ (cache : BlockCache) (pread : ℕ → ℕ → Call Buffer) (st : Stat) (path : Text)
    (content : BlockId → Buffer) (laws : CacheLaws cache content) (file : Buffer)
    (shows : Shows pread content (to_int st.st_ino) st.st_blksize file) where
  read_wanted_by :
      (size offset count rounds : ℕ) (s : cache.State) (after : Progress cache.State)
      → blocks_for count st.st_blksize ≡ rounds
      → let r = request st path size offset count in
        read_blocks cache pread r rounds r.first_block (start s count) ≡ done (next after)
        → read_wanted cache pread st path size offset (pos count) s
          ≡ done (gives after.out, after.state)
  unfolding read_wanted
  read_wanted_by size offset count rounds s after e h =
      let r = request st path size offset count in
      ap (λ o. o >>= (λ a. done (result cache pread a)))
        (subst (λ q. read_blocks cache pread r q r.first_block (start s count) ≡ done (next after))
          (sym e) h)

  pub read_from_within :
      (file_size size offset : ℕ) (w : ℤ) (s : cache.State)
      → leb file_size offset ≡ false
      → st.st_blksize < 2 ^ 31
      → wanted file_size size offset ≡ w
      → read_from cache pread st path size offset (pos file_size) s
        ≡ read_wanted cache pread st path size offset w s
  unfolding read_from
  read_from_within file_size size offset w s within blk e =
      rw (within, lt→ltb 0 st.st_blksize (omega (arith, shows.positive)), lt→ltb _ _ blk)
        (ap (λ w. read_wanted cache pread st path size offset w s) e)

  read_wanted-aligned :
      (size offset count rounds : ℕ) (s : cache.State)
      → blocks_for count st.st_blksize ≡ rounds
      → offset % st.st_blksize ≡ 0
      → offset + count ≤ length file
      → count ≤ size
      → laws.Inv rounds s
      → (s' : cache.State) × (read_wanted cache pread st path size offset (pos count) s
          ≡ done (gives (take count (drop offset file)), s'))
        × laws.Inv 0 s'
  unfolding read_blocks
  read_wanted-aligned size offset count zero s e z in_file room inv =
      let (all, some) = blocks_for_bounds count st.st_blksize shows.positive in
      let all' : count ≤ 0 * st.st_blksize = subst (λ q. count ≤ q * st.st_blksize) e all in
      let none : count ≡ 0 = omega (arith, all') in
      (
        s,
        read_wanted_by size offset count 0 s (start s count) e refl
            ∙ ap (λ n. done (gives (take n (drop offset file)), s)) (sym none),
        inv,
      )
  read_wanted-aligned size offset count (suc k) s e z in_file room inv =
      let bs = st.st_blksize in
      let (all, some) = blocks_for_bounds count bs shows.positive in
      let all' = subst (λ q. count ≤ q * bs) e all in
      let some' = subst (λ q. q * bs < count + bs) e some in
      let at : offset / bs * bs ≡ offset = omega (arith, div-add-mod' offset bs, z) in
      let (after, runs, bytes, inv') =
        read_blocks-aligned cache pread (request st path size offset count) content laws file shows
          k count s z (ap (λ n. offset / bs + n) (sym e)) (omega (arith, some')) all'
          (omega (arith, at, in_file)) room inv in
      (
        after.state,
        read_wanted_by size offset count (suc k) s after e runs
            ∙ ap (λ o. done (gives o, after.state)) (bytes ∙ ap (λ n. take count (drop n file)) at),
        inv',
      )

  -- The bytes of the file from the offset on, with a cache that is still well formed.
  abbrev Answers : ℕ → ℕ → Outcome (Call Buffer × cache.State) → Type 0
  Answers size offset o =
      (s' : cache.State) × (o ≡ done (gives (take size (drop offset file)), s')) × laws.Inv 0 s'

  read_from_past :
      (size offset : ℕ) (s : cache.State)
      → leb (length file) offset ≡ true
      → laws.Inv (blocks_for (min size (length file - offset)) st.st_blksize) s
      → Answers size offset (read_from cache pread st path size offset (pos (length file)) s)
  unfolding read_from
  read_from_past size offset s past inv =
      let h = leb→le (length file) offset past in
      let none : min size (length file - offset) ≡ 0 = omega (arith, h) in
      let empty : (0 + (st.st_blksize - 1)) / st.st_blksize ≡ 0 =
        div-eq_of_lt (omega (arith, shows.positive)) in
      (
        s,
        rw (past, drop_all offset file h, take-nil),
        subst (λ q. laws.Inv q s) (ap (λ k. blocks_for k st.st_blksize) none ∙ empty) inv,
      )

  read_from-aligned :
      (size offset : ℕ) (s : cache.State)
      → leb (length file) offset ≡ false
      → st.st_blksize < 2 ^ 31
      → offset % st.st_blksize ≡ 0
      → size + offset < 2 ^ 64
      → laws.Inv (blocks_for (min size (length file - offset)) st.st_blksize) s
      → Answers size offset (read_from cache pread st path size offset (pos (length file)) s)
  read_from-aligned size offset s within blk z room inv =
      let n = min size (length file - offset) in
      let inside : offset < length file = ground arith in
      let (s', runs, inv') =
        read_wanted-aligned size offset n _ s refl z (omega (arith, inside)) (omega arith) inv in
      (
        s',
        read_from_within (length file) size offset (pos n) s within blk
              (wanted-min (length file) size offset inside shows.small room)
            ∙ (runs
                ∙ ap (λ o. done (gives o, s'))
                    (take-min-length size (length file - offset) (drop offset file)
                      (sym (length-drop offset file)))),
        inv',
      )

  -- `caching_read` of an offset at the start of a block gives exactly the bytes of the file from the
  -- offset on, as many as are asked for, or fewer at the end of the file, whichever blocks are in
  -- the cache. The cache keeps `CacheLaws` for the blocks of the file and is ready for one call per
  -- block of the answer, `pread` of a whole block gives what the file has of it, the size and the
  -- block size of the file are `int`s, and the request fits a `size_t`.
  pub read_file-aligned :
      (size offset : ℕ) (s : cache.State)
      → st.st_size ≡ length file
      → st.st_blksize < 2 ^ 31
      → offset % st.st_blksize ≡ 0
      → size + offset < 2 ^ 64
      → laws.Inv (blocks_for (min size (length file - offset)) st.st_blksize) s
      → (s' : cache.State) × (read_file cache pread st path size (pos offset) s
          ≡ done (gives (take size (drop offset file)), s'))
        × laws.Inv 0 s'
  unfolding read_file
  read_file-aligned size offset s sized blk z room inv =
      let here : to_int st.st_size ≡ pos (length file) =
        ap to_int sized ∙ to_int-small (length file) shows.small in
      subst (λ n. Answers size offset (read_from cache pread st path size offset n s)) (sym here)
        (elim (Bool-cases (leb (length file) offset)) [
          | inl past ↦ read_from_past size offset s past inv
          | inr within ↦ read_from-aligned size offset s within blk z room inv
        ])
