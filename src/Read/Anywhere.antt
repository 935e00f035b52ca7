-- ===== src/Read/Anywhere.antt =====
-- Reads of `caching_read` from any offset: what the loop copies, where it goes on to its end.
use os_ex.Common.{
  min, Ensures, Ensures-bind, ℕ, zero, suc, ◌+◌, ◌-◌, ◌*◌, ◌≡◌, ◌∙◌, ◌<◌, ◌≤◌, refl, sym, ap, subst,
  ◌⊎◌, inl, inr, ◌++◌, length, take, drop, length-take, length-drop, arith, done, ◌>>=◌,
}
use os_ex.Block.{BlockId, Buffer}
use os_ex.Read.{
  Call, BlockCache, Request, Progress, Step, next, stop, fetch, offset_in, size_to_copy, copy_block,
  read_blocks,
}
use os_ex.Read.Fetch.{Shows}
use os_ex.Read.Aligned.{length-file_block, last_count}
use os_ex.Read.Wherever.{SafeCache, slice-more, Fetched, fetch-Ensures, Copies, copy_block-Ensures}

module _ (cache : BlockCache) (pread : ℕ → ℕ → Call Buffer) (r : Request)
    (content : BlockId → Buffer) (safe : SafeCache cache content) (file : Buffer)
    (shows : Shows pread content r.ino r.block_size file) (off count : ℕ)
    (off_at : off ≡ r.first_block * r.block_size + r.first_offset)
    (off_in : r.first_offset < r.block_size) (in_file : off + count ≤ length file) where
  -- Nothing is copied yet, or all up to the block.
  abbrev pub Stands : ℕ → ℕ → ℕ → Type 0
  Stands block copied pread_ret =
      ((block ≡ r.first_block) × (copied ≡ 0) × (pread_ret ≡ 0))
      ⊎ ((r.first_block < block) × (off + copied ≡ block * r.block_size))

  -- Before a round, with `k` rounds behind it.
  pub record Round (k block : ℕ) (p : Progress cache.State) : Type 0 where
    pub ends : block + suc k ≡ r.last_block
    pub reach : block * r.block_size + k * r.block_size < off + count
    pub stands : Stands block (length p.out) p.pread_ret
    pub copied : p.out ≡ take (length p.out) (drop off file)
    pub total : length p.out + p.remaining ≡ count
    pub inv : safe.Inv p.state

  -- The slice wanted, or the `errno` of `pread`, with a cache that is as it should be.
  abbrev pub IsSlice : Step cache.State (Progress cache.State) → Type 0
  IsSlice (stop errno s) = safe.Inv s
  IsSlice (next p) = (p.out ≡ take count (drop off file)) × safe.Inv p.state

  -- The first byte of the block that is copied follows those copied.
  place :
      (block copied pread_ret : ℕ)
      → Stands block copied pread_ret
      → off + copied ≡ block * r.block_size + offset_in cache pread r block
  place block copied pread_ret (inl (here, none, fresh)) = rw here (ground (arith, none, off_at))
  place block copied pread_ret (inr (later, at)) = ground (arith, at, later)

  module _ (k block : ℕ) (p p' p'' : Progress cache.State) (bytes : Buffer) (f : Round k block p)
      (fetched : Fetched cache pread r content safe file shows block p (next (bytes, p')))
      (moved : Copies cache pread r content safe file shows block bytes p' p'') where
    abbrev n : ℕ
    n = size_to_copy cache pread r block p'

    abbrev from : ℕ
    from = offset_in cache pread r block

    bytes_bound : length bytes ≤ r.block_size
    bytes_bound = omega (arith, ap length fetched.0, length-file_block r.block_size file block)

    out_more : p''.out ≡ take (length p.out + n) (drop off file)
    out_more =
        ap Progress.out moved.1
        ∙ ap (λ t. t ++ take n (drop from bytes)) (fetched.1 ∙ f.copied)
        ∙ ap (λ t. take (length p.out) (drop off file) ++ take n (drop from t)) fetched.0
        ∙ slice-more r.block_size from n (length p.out) off block file
            (place block (length p.out) p.pread_ret f.stands) (omega (arith, moved.0, bytes_bound))

    block_length : length bytes ≡ min r.block_size (length file - block * r.block_size)
    block_length = ap length fetched.0 ∙ length-file_block r.block_size file block

    here : off + length p.out ≡ block * r.block_size + from
    here = place block (length p.out) p.pread_ret f.stands

    in_drop : length p.out + n ≤ length (drop off file)
    in_drop = omega (arith, length-drop off file, here, moved.0, block_length, f.reach, in_file)

    length_more : length p''.out ≡ length p.out + n
    length_more =
        ap length out_more ∙ length-take (length p.out + n) (drop off file) ∙ omega (arith, in_drop)

    left : p''.remaining ≡ p.remaining - n
    left = ap Progress.remaining moved.1 ∙ ap (λ a. a - n) fetched.2

    last_round : k ≡ 0 → IsSlice (next p'')
    last_round z =
        let whole : n ≡ p.remaining =
          last_count cache pread r block p' (omega (arith, f.ends, z)) ∙ fetched.2 in
        (
          out_more ∙ ap (λ a. take a (drop off file)) (omega (arith, whole, f.total)),
          subst safe.Inv (sym (ap Progress.state moved.1)) fetched.3,
        )

    module _ (j : ℕ) (z : k ≡ suc j) where
      reach_next : suc block * r.block_size + j * r.block_size < off + count
      reach_next =
          let rounds : k * r.block_size ≡ j * r.block_size + r.block_size =
            ap (λ x. x * r.block_size) z ∙ omega arith in
          omega (arith, f.reach, rounds)

      full : length bytes ≡ r.block_size
      full = omega (arith, block_length, reach_next, in_file)

      to_end : Stands block (length p.out) p.pread_ret → from + n ≡ r.block_size
      to_end (inl (first, none, fresh)) = elim fetched.4 [
        | inl same ↦ ground (arith, first, fresh, same, off_in, f.ends, z)
        | inr len ↦ ground (arith, first, full, len, off_in, f.ends, z, moved.0)
      ]
      to_end (inr (later, at)) = ground (arith, later, f.ends, z)

      started : Stands block (length p.out) p.pread_ret → r.first_block < suc block
      started (inl (first, none, fresh)) = omega (arith, first)
      started (inr (later, at)) = omega (arith, later)

      later-Round : Round j (suc block) p''
      later-Round =
          let end = to_end f.stands in
          let at : off + length p''.out ≡ suc block * r.block_size =
            omega (arith, length_more, here, end) in
          record {
            ends = omega (arith, f.ends, z);
            reach = reach_next;
            stands = inr (started f.stands, at);
            copied = out_more ∙ ap (λ a. take a (drop off file)) (sym length_more);
            total = omega (arith, length_more, left, at, reach_next, f.total);
            inv = subst safe.Inv (sym (ap Progress.state moved.1)) fetched.3;
          }

  fetch-Round :
      (k block : ℕ) (p : Progress cache.State)
      → Round k block p
      → Ensures
          (Fetched cache pread r content safe file shows block p)
          (fetch cache pread r block p)
  fetch-Round k block p f =
      fetch-Ensures cache pread r content safe file shows block p f.inv
        (omega (arith, f.reach, in_file))

  -- One round, and what is so after it.
  Round-Ensures :
      (k block : ℕ) (p : Progress cache.State)
      → Round k block p
      → ((p' p'' : Progress cache.State) (bytes : Buffer)
          → Fetched cache pread r content safe file shows block p (next (bytes, p'))
          → Copies cache pread r content safe file shows block bytes p' p''
          → Ensures IsSlice (read_blocks cache pread r k (suc block) p''))
      → Ensures IsSlice (read_blocks cache pread r (suc k) block p)
  unfolding read_blocks
  Round-Ensures k block p f rest = Ensures-bind IsSlice (fetch cache pread r block p) _ (λ x runs.
      after_fetch x (
        subst (Ensures (Fetched cache pread r content safe file shows block p)) runs
          (fetch-Round k block p f)))
    where
      after_fetch :
          (x : Step cache.State (Buffer × Progress cache.State))
          → Fetched cache pread r content safe file shows block p x
          → Ensures IsSlice (elim x [
            | stop errno s ↦ done (stop errno s)
            | next (bytes, p') ↦ do
              p'' ← copy_block cache pread r block bytes p'
              read_blocks cache pread r k (suc block) p''
          ])
      after_fetch (stop errno s) h = h
      after_fetch (next (bytes, p')) h =
          Ensures-bind IsSlice (copy_block cache pread r block bytes p') _ (λ p'' runs.
            rest p' p'' bytes h (
              subst (Ensures (Copies cache pread r content safe file shows block bytes p')) runs
                (copy_block-Ensures cache pread r content safe file shows block bytes p')))

  pub read_blocks-Ensures :
      (k block : ℕ) (p : Progress cache.State)
      → Round k block p
      → Ensures IsSlice (read_blocks cache pread r (suc k) block p)
  unfolding read_blocks
  read_blocks-Ensures zero block p f =
      Round-Ensures zero block p f
        (λ p' p'' bytes h moved. last_round zero block p p' p'' bytes f h moved refl)
  read_blocks-Ensures (suc j) block p f = Round-Ensures (suc j) block p f (λ p' p'' bytes h moved.
      read_blocks-Ensures j (suc block) p''
        (later-Round (suc j) block p p' p'' bytes f h moved j refl))
