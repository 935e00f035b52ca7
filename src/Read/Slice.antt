-- ===== src/Read/Slice.antt =====
-- `caching_read` between `fstat` and its result, from any offset, wherever it goes on.
use os_ex.Common.{
  Ensures-mono, lt→ltb, Ensures, Ensures-bind, true, false, Bool-cases, ℕ, zero, suc, ◌+◌, ◌-◌, ◌*◌,
  ◌/◌, ◌%◌, ◌^◌, min, ◌≡◌, ◌∙◌, ◌<◌, ◌≤◌, refl, sym, ap, subst, ◌⊎◌, inl, inr, length, take, drop,
  take-nil, drop_all, take-min-length, length-drop, arith, leb→le, leb, ltb, Outcome, done, ◌>>=◌,
}
use native.Mathlib.Nat.{div-add-mod', mod-lt}
use os_ex.Common.Int.{ℤ, pos, negsuc}
use os_ex.Block.{BlockId, Buffer, Text}
use os_ex.Read.{Call, gives, fails, BlockCache, Progress, start, Step, next, stop, read_blocks}
use os_ex.Read.Fetch.{Shows}
use os_ex.Read.File.{
  Stat, to_int, to_int-small, wanted, wanted-min, blocks_for, blocks_for_bounds, request, result,
  read_wanted, read_from, read_file,
}
use os_ex.Read.Wherever.{SafeCache}
use os_ex.Read.Anywhere.{IsSlice, read_blocks-Ensures}

-- Not more is wanted than the file has, and nothing where the sum of size and offset wraps.
wanted_cases :
    (file_size size offset : ℕ)
    → offset < file_size
    → file_size < 2 ^ 31
    → size < 2 ^ 64
    → ((n : ℕ) × (wanted file_size size offset ≡ negsuc n))
      ⊎ ((n : ℕ) × (wanted file_size size offset ≡ pos n) × (offset + n ≤ file_size))
wanted_cases file_size size offset h small room =
    elim (Bool-cases (ltb file_size ((size + offset) % 2 ^ 64))) [
      | inl less ↦ inr (file_size - offset, rw less refl, omega arith)
      | inr more ↦ elim (Bool-cases (ltb (size % 2 ^ 32) (2 ^ 31))) [
        | inl low ↦ inr (size % 2 ^ 32, rw (more, low) refl, ground (arith, more, low))
        | inr high ↦ inl (2 ^ 32 - size % 2 ^ 32 - 1, rw (more, high) refl)
      ]
    ]

-- A reply with bytes has these.
abbrev pub IsBytes : Buffer → Call Buffer → Type 0
IsBytes bytes (fails errno) = Unit {0}
IsBytes bytes (gives out) = out ≡ bytes

module _ (cache : BlockCache) (pread : ℕ → ℕ → Call Buffer) (st : Stat) (path : Text)
    (content : BlockId → Buffer) (safe : SafeCache cache content) (file : Buffer)
    (shows : Shows pread content (to_int st.st_ino) st.st_blksize file) where
  -- The first `n` bytes of the file from the offset on, or an `errno`.
  abbrev pub IsPart : ℕ → ℕ → Call Buffer × cache.State → Type 0
  IsPart offset n (fails errno, s) = safe.Inv s
  IsPart offset n (gives out, s) = (out ≡ take n (drop offset file)) × safe.Inv s

  rounds-Ensures :
      (size offset count rounds : ℕ) (s : cache.State)
      → blocks_for count st.st_blksize ≡ rounds
      → offset + count ≤ length file
      → safe.Inv s
      → let r = request st path size offset count in
        Ensures (IsPart offset count) (
          read_blocks cache pread r rounds r.first_block (start s count)
          >>= (λ a. done (result cache pread a)))
  unfolding read_blocks
  rounds-Ensures size offset count zero s e in_file inv =
      let (all, some) = blocks_for_bounds count st.st_blksize shows.positive in
      let all' : count ≤ 0 * st.st_blksize = subst (λ q. count ≤ q * st.st_blksize) e all in
      let none : 0 ≡ count = omega (arith, all') in (ap (λ n. take n (drop offset file)) none, inv)
  rounds-Ensures size offset count (suc k) s e in_file inv =
      let bs = st.st_blksize in
      let r = request st path size offset count in
      let (all, some) = blocks_for_bounds count bs shows.positive in
      let some' = subst (λ q. q * bs < count + bs) e some in
      let at = div-add-mod' offset bs in
      let Q =
        IsSlice cache pread r content safe file shows offset count (sym at)
          (mod-lt offset (omega (arith, shows.positive))) in_file in
      Ensures-bind (IsPart offset count)
        (read_blocks cache pread r (suc k) r.first_block (start s count))
        (λ a. done (result cache pread a))
        (λ a runs. given a (
          subst (Ensures Q) runs (
            read_blocks-Ensures cache pread r content safe file shows offset count (sym at)
              (mod-lt offset (omega (arith, shows.positive))) in_file k r.first_block
              (start s count)
              record {
                ends = ap (λ q. offset / bs + q) (sym e);
                reach = omega (arith, at, some');
                stands = inl (refl, refl, refl);
                copied = refl;
                total = omega arith;
                inv = inv;
              })))
    where
      given :
          (a : Step cache.State (Progress cache.State))
          → IsSlice cache pread
              (request st path size offset count)
              content
              safe
              file
              shows
              offset
              count
              (sym (div-add-mod' offset st.st_blksize))
              (mod-lt offset (omega (arith, shows.positive)))
              in_file
              a
          → IsPart offset count (result cache pread a)
      given (next p) h = h
      given (stop errno s) h = h

  within-Ensures :
      (size offset n : ℕ) (s : cache.State)
      → leb (length file) offset ≡ false
      → wanted (length file) size offset ≡ pos n
      → offset + n ≤ length file
      → safe.Inv s
      → Ensures (IsPart offset n) (read_from cache pread st path size offset (pos (length file)) s)
  unfolding read_from read_wanted
  within-Ensures size offset n s within e in_file inv =
      elim (Bool-cases (ltb st.st_blksize (2 ^ 31))) [
        | inr big ↦ rw (within, lt→ltb 0 st.st_blksize (omega (arith, shows.positive)), big) tt
        | inl blk ↦
            rw (within, lt→ltb 0 st.st_blksize (omega (arith, shows.positive)), blk, e)
              (rounds-Ensures size offset n _ s refl in_file inv)
      ]

  past-Ensures :
      (size offset : ℕ) (s : cache.State)
      → leb (length file) offset ≡ true
      → safe.Inv s
      → Ensures
          (IsPart offset size)
          (read_from cache pread st path size offset (pos (length file)) s)
  unfolding read_from
  past-Ensures size offset s past inv =
      rw past (sym (ap (take size) (drop_all offset file (leb→le _ _ past)) ∙ take-nil size), inv)

  nothing_wanted :
      (size offset n : ℕ) (s : cache.State)
      → leb (length file) offset ≡ false
      → wanted (length file) size offset ≡ negsuc n
      → safe.Inv s
      → Ensures (IsPart offset 0) (read_from cache pread st path size offset (pos (length file)) s)
  unfolding read_from read_wanted
  nothing_wanted size offset n s within e inv = elim (Bool-cases (ltb st.st_blksize (2 ^ 31))) [
    | inr big ↦ rw (within, lt→ltb 0 st.st_blksize (omega (arith, shows.positive)), big) tt
    | inl blk ↦
        rw (within, lt→ltb 0 st.st_blksize (omega (arith, shows.positive)), blk, e) (refl, inv)
  ]

  -- Some bytes of the file.
  abbrev pub IsSome : ℕ → Call Buffer × cache.State → Type 0
  IsSome offset r = (n : ℕ) × IsPart offset n r

  IsSome-Ensures :
      (offset n : ℕ) (o : Outcome (Call Buffer × cache.State))
      → Ensures (IsPart offset n) o
      → Ensures (IsSome offset) o
  IsSome-Ensures offset n = Ensures-mono (IsPart offset n) (IsSome offset) (λ r h. (n, h))

  read_from-IsSome :
      (size offset : ℕ) (s : cache.State)
      → size < 2 ^ 64
      → safe.Inv s
      → Ensures (IsSome offset) (read_from cache pread st path size offset (pos (length file)) s)
  read_from-IsSome size offset s bound inv = elim (Bool-cases (leb (length file) offset)) [
    | inl past ↦ IsSome-Ensures offset size _ (past-Ensures size offset s past inv)
    | inr within ↦ elim (wanted_cases (length file) size offset (ground arith) shows.small bound) [
      | inl (n, e) ↦ IsSome-Ensures offset 0 _ (nothing_wanted size offset n s within e inv)
      | inr (n, e, in_file) ↦
          IsSome-Ensures offset n _ (within-Ensures size offset n s within e in_file inv)
    ]
  ]

  to_its_end :
      (size offset : ℕ) (r : Call Buffer × cache.State)
      → IsPart offset (min size (length file - offset)) r
      → IsPart offset size r
  to_its_end size offset (fails errno, s) inv = inv
  to_its_end size offset (gives out, s) (e, inv) = (
    e
        ∙ take-min-length size (length file - offset) (drop offset file)
            (sym (length-drop offset file)),
    inv,
  )

  read_from-slice :
      (size offset : ℕ) (s : cache.State)
      → size + offset < 2 ^ 64
      → safe.Inv s
      → Ensures
          (IsPart offset size)
          (read_from cache pread st path size offset (pos (length file)) s)
  read_from-slice size offset s room inv = elim (Bool-cases (leb (length file) offset)) [
    | inl past ↦ past-Ensures size offset s past inv
    | inr within ↦
        let inside : offset < length file = ground arith in
        let n = min size (length file - offset) in
        Ensures-mono (IsPart offset n) (IsPart offset size) (to_its_end size offset) _ (
          within-Ensures size offset n s within
            (wanted-min (length file) size offset inside shows.small room) (omega (arith, inside))
            inv)
  ]

  module _ (sized : st.st_size ≡ length file) where
    stated : to_int st.st_size ≡ pos (length file)
    stated = ap to_int sized ∙ to_int-small (length file) shows.small

    -- Where a read goes on to bytes, they are those asked for.
    pub read_file-slice :
        (size offset : ℕ) (s : cache.State)
        → size + offset < 2 ^ 64
        → safe.Inv s
        → Ensures
            (λ r. IsBytes (take size (drop offset file)) r.0)
            (read_file cache pread st path size (pos offset) s)
    unfolding read_file
    read_file-slice size offset s room inv = rw stated (
        Ensures-mono (IsPart offset size) (λ r. IsBytes (take size (drop offset file)) r.0) bytes _
          (read_from-slice size offset s room inv))
      where
        bytes :
            (r : Call Buffer × cache.State)
            → IsPart offset size r
            → IsBytes (take size (drop offset file)) r.0
        bytes (fails errno, s) h = tt
        bytes (gives out, s) h = h.0

    -- Whatever is read, the cache is as it should be after it.
    pub read_file-Inv :
        (size : ℕ) (offset : ℤ) (s : cache.State)
        → size < 2 ^ 64
        → safe.Inv s
        → Ensures (λ r. safe.Inv r.1) (read_file cache pread st path size offset s)
    unfolding read_file
    read_file-Inv size (negsuc n) s bound inv = inv
    read_file-Inv size (pos offset) s bound inv = rw stated (
        Ensures-mono (IsSome offset) (λ r. safe.Inv r.1) (kept offset) _
          (read_from-IsSome size offset s bound inv))
      where
        kept : (offset : ℕ) (r : Call Buffer × cache.State) → IsSome offset r → safe.Inv r.1
        kept offset (fails errno, s) (n, inv) = inv
        kept offset (gives out, s) (n, (e, inv)) = inv
