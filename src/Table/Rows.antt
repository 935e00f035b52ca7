-- ===== src/Table/Rows.antt =====
-- The table of the cache has a row for each cached block, the one used last at the end.
use os_ex.Common.{
  ℕ, ◌+◌, ◌≡◌, ◌∙◌, ◌<◌, refl, ap, sym, true, false, inl, inr, ◌⊎◌, Bool-cases, List, [], ◌∷◌, ◌++◌,
  append_assoc, append-nil, All, All-append, arith, length, drop, done, if◌then◌else◌,
}
use os_ex.Common.Int.{pos_add, pos, pos_part, ltb_ℤ}
use os_ex.Common.Decimal.{to_string}
use os_ex.Block.{Text, CacheBlock, is_real, int_max}
use os_ex.Manager.{CacheChain, CacheManager}
use os_ex.Table.{block_row, row_text, rows_text, cache_to_string}
use os_ex.Table.Reading.{Row, render_row, render_rows, IsPlain, read_rows, read_rows-render_rows}

-- What the table says of a block.
abbrev pub row_of : CacheBlock → Row
row_of b = record {
  path = drop 1 b.path;
  number = pos_part b.block_number + 1;
  references = b.ref_count;
}

-- The cached blocks from the back of the list on.
abbrev pub rows_of : CacheChain → List Row
rows_of [] = []
rows_of (n ∷ c) = rows_of c ++ (if is_real n.item then row_of n.item ∷ [] else [])

-- A cached block has a number from 0 up to the last before the greatest `int`, and a path with no
-- space in it.
abbrev pub IsListed : CacheBlock → Type 0
IsListed b =
    (is_real b ≡ false) ⊎ ((i : ℕ) × (b.block_number ≡ pos i) × (i < int_max) × IsPlain (row_of b))

block_row_lem :
    (b : CacheBlock) (i : ℕ)
    → b.block_number ≡ pos i
    → i < int_max
    → block_row b ≡ done (render_row (row_of b))
unfolding block_row to_string
block_row_lem b i e h =
    let small : ltb_ℤ (pos i) (pos int_max) ≡ true = ground arith in rw (e, small, pos_add i 1)

render_rows-append : (rs qs : List Row) → render_rows (rs ++ qs) ≡ render_rows rs ++ render_rows qs
render_rows-append [] qs = refl
render_rows-append (r ∷ rs) qs =
    ap (λ t. render_row r ++ t) (render_rows-append rs qs)
    ∙ sym (append_assoc (render_row r) (render_rows rs) (render_rows qs))

row_text_lem :
    (b : CacheBlock)
    → IsListed b
    → row_text b ≡ done (render_rows (if is_real b then row_of b ∷ [] else []))
row_text_lem b (inl e) = rw e
row_text_lem b (inr (i, e, h, p)) = elim (Bool-cases (is_real b)) [
  | inl real ↦ rw real (block_row_lem b i e h ∙ ap done (sym (append-nil (render_row (row_of b)))))
  | inr empty ↦ rw empty
]

rows_text_lem :
    (c : CacheChain) → All (λ n. IsListed n.item) c → rows_text c ≡ done (render_rows (rows_of c))
unfolding rows_text
rows_text_lem [] h = refl
rows_text_lem (n ∷ c) h =
    rw (rows_text_lem c h.1, row_text_lem n.item h.0)
      (ap done (sym (render_rows-append (rows_of c) _)))

IsPlain-rows_of : (c : CacheChain) → All (λ n. IsListed n.item) c → All IsPlain (rows_of c)
IsPlain-rows_of [] h = tt
IsPlain-rows_of (n ∷ c) h =
    All-append IsPlain (rows_of c) _ (IsPlain-rows_of c h.1) (plain_row n.item h.0)
  where
    plain_row :
        (b : CacheBlock) → IsListed b → All IsPlain (if is_real b then row_of b ∷ [] else [])
    plain_row b (inl e) = rw e tt
    plain_row b (inr (i, e, h, p)) = elim (Bool-cases (is_real b)) [
      | inl real ↦ rw real (p, tt)
      | inr empty ↦ rw empty tt
    ]

-- The table that `cacheToString` gives can be read back: its rows are the cached blocks from the back
-- of the list to its front, each with the path without its first character, the number of the block
-- counted from 1, and the count. This is for blocks whose numbers are not negative and can be counted
-- up, on paths with no spaces.
pub cache_to_string-read_rows :
    (m : CacheManager) (fuel : ℕ)
    → All (λ n. IsListed n.item) m.cache_chain
    → length (rows_of m.cache_chain) < fuel
    → (t : Text) × (cache_to_string m ≡ done t) × (read_rows fuel t ≡ rows_of m.cache_chain)
unfolding cache_to_string
cache_to_string-read_rows m fuel h f = (
  render_rows (rows_of m.cache_chain),
  rows_text_lem m.cache_chain h,
  read_rows-render_rows fuel (rows_of m.cache_chain) f (IsPlain-rows_of m.cache_chain h),
)
