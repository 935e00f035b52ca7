-- ===== src/Read/Aligned.antt =====
-- Reads that begin at the start of a block.
use os_ex.Common.{
  ℕ, zero, suc, ◌+◌, ◌-◌, ◌*◌, ◌≡◌, ◌∙◌, ◌<◌, ◌≤◌, refl, sym, ap, ◌⊎◌, inl, inr, ◌++◌, append_assoc,
  length, take, drop, length-take, length-drop, length-append, take-take, take-drop_add, drop-drop,
  arith, le→leb, Outcome, done, min,
}
use os_ex.Block.{BlockId, Buffer}
use os_ex.Read.{
  Call, BlockCache, Request, Progress, start, Step, next, fetch, copy_block, read_blocks, offset_in,
  size_to_copy,
}
use os_ex.Read.Fetch.{CacheLaws, Shows, file_block, fetch-Fetched}

module _ (cache : BlockCache) (pread : ℕ → ℕ → Call Buffer) (r : Request) where
  copy_block_lem :
      (block from count : ℕ) (bytes : Buffer) (p : Progress cache.State)
      → offset_in cache pread r block ≡ from
      → size_to_copy cache pread r block p ≡ count
      → from + count ≤ length bytes
      → length p.out + count ≤ r.size
      → copy_block cache pread r block bytes p
        ≡ done (record p {
          out = p.out ++ take count (drop from bytes);
          remaining = p.remaining - count;
        })
  unfolding copy_block
  copy_block_lem block from count bytes p e e' h h' = rw (e, e', le→leb _ _ h, le→leb _ _ h')

  read_blocks_by :
      (rounds block : ℕ) (p p' p'' : Progress cache.State) (bytes : Buffer)
      {o : Outcome (Step cache.State (Progress cache.State))}
      → fetch cache pread r block p ≡ done (next (bytes, p'))
      → copy_block cache pread r block bytes p' ≡ done p''
      → read_blocks cache pread r rounds (suc block) p'' ≡ o
      → read_blocks cache pread r (suc rounds) block p ≡ o
  unfolding read_blocks
  read_blocks_by rounds block p p' p'' bytes e e' e3 = rw (e, e', e3)

  zero_offset : (block : ℕ) → r.first_offset ≡ 0 → offset_in cache pread r block ≡ 0
  zero_offset block z = ground arith

  pub last_count :
      (block : ℕ) (p : Progress cache.State)
      → block + 1 ≡ r.last_block
      → size_to_copy cache pread r block p ≡ p.remaining
  last_count block p e = ground arith

  whole_count :
      (block : ℕ) (p : Progress cache.State)
      → block + 1 < r.last_block
      → r.first_offset ≡ 0
      → (r.first_block < block) ⊎ ((p.pread_ret ≡ 0) ⊎ (p.pread_ret ≡ r.block_size))
      → size_to_copy cache pread r block p ≡ r.block_size
  whole_count block p e z (inl later) = ground arith
  whole_count block p e z (inr (inl cached)) = ground arith
  whole_count block p e z (inr (inr whole)) = ground arith

pub length-file_block :
    (block_size : ℕ) (file : Buffer) (b : ℕ)
    → length (file_block block_size file b) ≡ min block_size (length file - b * block_size)
length-file_block block_size file b =
    length-take block_size (drop (b * block_size) file)
    ∙ ap (min block_size) (length-drop (b * block_size) file)

-- The slice of the file from a block's start on, in two parts.
slice-split :
    (bs rest block : ℕ) (file : Buffer)
    → take bs (drop (block * bs) file) ++ take rest (drop (suc block * bs) file)
      ≡ take (bs + rest) (drop (block * bs) file)
slice-split bs rest block file =
    let at : suc block * bs ≡ block * bs + bs = omega arith in
    ap (λ t. take bs (drop (block * bs) file) ++ take rest t)
      (ap (λ n. drop n file) at ∙ sym (drop-drop bs (block * bs) file))
    ∙ take-drop_add bs rest (drop (block * bs) file)

module _ (cache : BlockCache) (pread : ℕ → ℕ → Call Buffer) (r : Request)
    (content : BlockId → Buffer) (laws : CacheLaws cache content) (file : Buffer)
    (shows : Shows pread content r.ino r.block_size file) where
  -- The bytes wanted from the block on are those of the rounds left, in the file and in the buffer.
  record Fits (rounds block : ℕ) (p : Progress cache.State) : Type 0 where
    starts : r.first_block ≤ block
    ends : block + suc rounds ≡ r.last_block
    fresh : (r.first_block < block) ⊎ (p.pread_ret ≡ 0)
    some_left : rounds * r.block_size < p.remaining
    all_left : p.remaining ≤ suc rounds * r.block_size
    in_file : block * r.block_size + p.remaining ≤ length file
    in_buffer : length p.out + p.remaining ≤ r.size

  -- The rounds that are left copied the rest of the slice.
  record Copied (block : ℕ) (p : Progress cache.State)
      (o : Outcome (Step cache.State (Progress cache.State))) : Type 0 where
    after : Progress cache.State
    runs : o ≡ done (next after)
    bytes : after.out ≡ p.out ++ take p.remaining (drop (block * r.block_size) file)
    inv : laws.Inv 0 after.state

  ready :
      {block n m : ℕ} {x y z : ℕ}
      → (n < m) ⊎ (x ≡ 0)
      → (y ≡ x) ⊎ (y ≡ z)
      → z ≡ block
      → (n < m) ⊎ ((y ≡ 0) ⊎ (y ≡ block))
  ready (inl h) e w = inl h
  ready (inr h) (inl e) w = inr (inl (e ∙ h))
  ready (inr h) (inr e) w = inr (inr (e ∙ w))

  read_blocks-Copied :
      (rounds block : ℕ) (p : Progress cache.State)
      → r.first_offset ≡ 0
      → Fits rounds block p
      → laws.Inv (suc rounds) p.state
      → Copied block p (read_blocks cache pread r (suc rounds) block p)
  unfolding read_blocks
  read_blocks-Copied zero block p z f inv =
      let bs = r.block_size in
      let fetched =
        fetch-Fetched cache pread r content laws file shows 0 block p inv
          (omega (arith, f.in_file, f.some_left)) in
      let p' : Progress cache.State = record p {
        state = fetched.state;
        pread_ret = fetched.pread_ret;
      } in
      let full = length-file_block bs file block in
      let copied =
        copy_block_lem cache pread r block 0 p.remaining (file_block bs file block) p'
          (zero_offset cache pread r block z)
          (last_count cache pread r block p' (omega (arith, f.ends)))
          (omega (arith, full, f.all_left, f.in_file)) f.in_buffer in
      let p'' : Progress cache.State = record p' {
        out = p.out ++ take p.remaining (file_block bs file block);
        remaining = p.remaining - p.remaining;
      } in
      record {
        after = p'';
        runs =
            read_blocks_by cache pread r 0 block p p' p'' (file_block bs file block) fetched.runs
              copied refl;
        bytes =
            ap (λ t. p.out ++ t)
              (take-take p.remaining bs (drop (block * bs) file) (omega (arith, f.all_left)));
        inv = fetched.inv;
      }
  read_blocks-Copied (suc k) block p z f inv =
      let bs = r.block_size in
      let fetched =
        fetch-Fetched cache pread r content laws file shows (suc k) block p inv
          (omega (arith, f.in_file, f.some_left)) in
      let p' : Progress cache.State = record p {
        state = fetched.state;
        pread_ret = fetched.pread_ret;
      } in
      let bytes = file_block bs file block in
      let full : length bytes ≡ bs =
        omega (arith, length-file_block bs file block, f.in_file, f.some_left) in
      let copied =
        copy_block_lem cache pread r block 0 bs bytes p' (zero_offset cache pread r block z)
          (whole_count cache pread r block p' (omega (arith, f.ends)) z
            (ready f.fresh fetched.ret full))
          (omega (arith, full)) (omega (arith, f.some_left, f.in_buffer)) in
      let p'' : Progress cache.State = record p' {
        out = p.out ++ take bs bytes;
        remaining = p.remaining - bs;
      } in
      let later : Fits k (suc block) p'' = record {
        starts = omega (arith, f.starts);
        ends = omega (arith, f.ends);
        fresh = inl (omega (arith, f.starts));
        some_left = omega (arith, f.some_left);
        all_left = omega (arith, f.all_left, f.some_left);
        in_file = omega (arith, f.in_file, f.some_left);
        in_buffer = omega (
          arith,
          f.in_buffer,
          f.some_left,
          length-append p.out (take bs bytes),
          length-take bs bytes,
          full,
        );
      } in
      let rest = read_blocks-Copied k (suc block) p'' z later fetched.inv in
      record {
        after = rest.after;
        runs =
            read_blocks_by cache pread r (suc k) block p p' p'' bytes fetched.runs copied rest.runs;
        bytes =
            rest.bytes
            ∙ (append_assoc p.out (take bs bytes) _
                ∙ ap (λ t. p.out ++ t)
                    (ap (λ t. t ++ take (p.remaining - bs) (drop (suc block * bs) file))
                        (take-take bs bs (drop (block * bs) file) (omega arith))
                      ∙ (slice-split bs (p.remaining - bs) block file
                          ∙ ap (λ n. take n (drop (block * bs) file))
                              (omega (arith, f.some_left)))));
        inv = rest.inv;
      }

  -- A read that starts at the start of block `first_block`, wants `count` bytes that the file has,
  -- goes through as many blocks as hold them, and has room for them in the caller's buffer, goes on
  -- and gives exactly these bytes of the file. This is so whichever of the blocks the cache holds,
  -- for a cache that keeps `CacheLaws` for the blocks of the file and is ready for one call of each
  -- round, and a `pread` that gives what the file has of a block.
  pub read_blocks-aligned :
      (rounds count : ℕ) (s : cache.State)
      → r.first_offset ≡ 0
      → r.first_block + suc rounds ≡ r.last_block
      → rounds * r.block_size < count
      → count ≤ suc rounds * r.block_size
      → r.first_block * r.block_size + count ≤ length file
      → count ≤ r.size
      → laws.Inv (suc rounds) s
      → (after : Progress cache.State) × (read_blocks cache pread r
            (suc rounds)
            r.first_block
            (start s count)
          ≡ done (next after))
        × (after.out ≡ take count (drop (r.first_block * r.block_size) file))
        × laws.Inv 0 after.state
  read_blocks-aligned rounds count s z ends some_left all_left in_file in_buffer inv =
      let copied =
        read_blocks-Copied rounds r.first_block (start s count) z
          record {
            starts = omega arith;
            ends = ends;
            fresh = inr refl;
            some_left = some_left;
            all_left = all_left;
            in_file = in_file;
            in_buffer = omega (arith, in_buffer);
          }
          inv in
      (copied.after, copied.runs, copied.bytes, copied.inv)
