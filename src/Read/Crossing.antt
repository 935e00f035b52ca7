-- ===== src/Read/Crossing.antt =====
-- Reads that go over the end of a block without starting at the start of one.
use os_ex.Common.{
  ℕ, suc, ◌+◌, ◌-◌, ◌*◌, ◌/◌, ◌%◌, ◌^◌, min, ◌≡◌, ◌∙◌, ◌≤◌, ◌<◌, sym, ap, subst, false, length,
  drop, length-take, arith, done, undefined, Fault, bad_copy, ◌>>=◌, leb,
}
use native.Mathlib.Nat.{div-add-mod', div-eq_of_lt, div-eq-sub-div}
use os_ex.Common.Int.{pos}
use os_ex.Block.{BlockId, Buffer, Text}
use os_ex.Read.{
  Call, BlockCache, Request, Progress, start, next, fetch, copy_block, read_blocks, offset_in,
  size_to_copy,
}
use os_ex.Read.Fetch.{CacheLaws, Shows, file_block, fetch-Fetched}
use os_ex.Read.Aligned.{last_count}
use os_ex.Read.File.{
  Stat, to_int, to_int-small, wanted-min, blocks_for, request, result, read_wanted, read_from,
  read_from_within, read_file,
}

module _ (cache : BlockCache) (pread : ℕ → ℕ → Call Buffer) (r : Request) where
  copy_block_undefined :
      (block from count : ℕ) (bytes : Buffer) (p : Progress cache.State)
      → offset_in cache pread r block ≡ from
      → size_to_copy cache pread r block p ≡ count
      → leb (from + count) (length bytes) ≡ false
      → copy_block cache pread r block bytes p ≡ undefined bad_copy
  unfolding copy_block
  copy_block_undefined block from count bytes p e e' h = rw (e, e', h)

  read_blocks_undefined :
      (rounds block : ℕ) (p p' : Progress cache.State) (bytes : Buffer) (fault : Fault)
      → fetch cache pread r block p ≡ done (next (bytes, p'))
      → copy_block cache pread r block bytes p' ≡ undefined fault
      → read_blocks cache pread r (suc rounds) block p ≡ undefined fault
  unfolding read_blocks
  read_blocks_undefined rounds block p p' bytes fault e e' = rw (e, e')

  first_offset_in : offset_in cache pread r r.first_block ≡ r.first_offset
  first_offset_in = ground arith

one_block : (n m : ℕ) → 1 ≤ n → n ≤ m → blocks_for n m ≡ 1
one_block n m h k =
    let rest : (n + (m - 1) - m) / m ≡ 0 = div-eq_of_lt (omega (arith, h, k)) in
    div-eq-sub-div {m = m} {n = n + (m - 1)} (omega (arith, h, k)) (omega (arith, h, k))
    ∙ ap (λ q. q + 1) rest

module _ (cache : BlockCache) (pread : ℕ → ℕ → Call Buffer) (st : Stat) (path : Text)
    (content : BlockId → Buffer) (laws : CacheLaws cache content) (file : Buffer)
    (shows : Shows pread content (to_int st.st_ino) st.st_blksize file) where
  read_wanted-crossing :
      (size offset : ℕ) (s : cache.State)
      → 1 ≤ size
      → size ≤ st.st_blksize
      → st.st_blksize < offset % st.st_blksize + size
      → offset + size ≤ length file
      → laws.Inv 1 s
      → read_wanted cache pread st path size offset (pos size) s ≡ undefined bad_copy
  unfolding read_wanted
  read_wanted-crossing size offset s some small over in_file inv =
      let bs = st.st_blksize in
      let r = request st path size offset size in
      let block = offset / bs in
      let one : blocks_for size bs ≡ 1 = one_block size bs some small in
      let fetched =
        fetch-Fetched cache pread r content laws file shows 0 block (start s size) inv
          (omega (arith, div-add-mod' offset bs, in_file, some)) in
      let p' : Progress cache.State = record (start s size) {
        state = fetched.state;
        pread_ret = fetched.pread_ret;
      } in
      let bytes = file_block bs file block in
      let short : length bytes ≤ bs = omega (arith, length-take bs (drop (block * bs) file)) in
      let copied =
        copy_block_undefined cache pread r block (offset % bs) size bytes p'
          (first_offset_in cache pread r)
          (last_count cache pread r block p' (ap (λ n. block + n) (sym one)))
          (ground (arith, short, over)) in
      ap (λ o. o >>= (λ a. done (result cache pread a)))
        (subst (λ q. read_blocks cache pread r q block (start s size) ≡ undefined bad_copy)
          (sym one)
          (read_blocks_undefined cache pread r 0 block (start s size) p' bytes bad_copy fetched.runs
            copied))

  -- `caching_read` of at most a block's size of bytes that the file has, which begin within one block
  -- and end in the next, is undefined, whichever blocks are in the cache: the loop goes through the
  -- first block only, and copies past the end of it. The cache keeps `CacheLaws` and is ready for a
  -- call, `pread` gives what the file has of a block, and the sizes are `int`s.
  pub read_file-crossing :
      (size offset : ℕ) (s : cache.State)
      → st.st_size ≡ length file
      → st.st_blksize < 2 ^ 31
      → 1 ≤ size
      → size ≤ st.st_blksize
      → st.st_blksize < offset % st.st_blksize + size
      → offset + size ≤ length file
      → laws.Inv 1 s
      → read_file cache pread st path size (pos offset) s ≡ undefined bad_copy
  unfolding read_file
  read_file-crossing size offset s sized blk some small over in_file inv =
      let here : to_int st.st_size ≡ pos (length file) =
        ap to_int sized ∙ to_int-small (length file) shows.small in
      let whole : min size (length file - offset) ≡ size = omega (arith, in_file) in
      ap (λ n. read_from cache pread st path size offset n s) here
      ∙ (read_from_within cache pread st path content laws file shows (length file) size offset
            (pos size) s (ground (arith, in_file, some)) blk
            (wanted-min (length file) size offset (omega (arith, in_file, some)) shows.small
                (omega (arith, in_file, shows.small))
              ∙ ap pos whole)
          ∙ read_wanted-crossing size offset s some small over in_file inv)
