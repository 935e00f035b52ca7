-- ===== src/Table/Tests.antt =====
-- The table of a cache of two blocks and an empty slot, read back.
use os_ex.Common.{◌≡◌, ◌++◌, refl, inl, inr, List, [], ◌∷◌, done, arith}
use os_ex.Block.{Text}
use os_ex.Paths.Segments.{render}
use os_ex.Paths.Tests.{a, b, cache}
use os_ex.Table.{cache_to_string}
use os_ex.Table.Reading.{Row, read_rows}
use os_ex.Table.Rows.{cache_to_string-read_rows}

-- The rows `ab 2 1` and `a/b 1 1`.
abbrev two_rows : List Row
two_rows =
    record { path = a ++ b; number = 2; references = 1 }
    ∷ record { path = a ++ (b'/' ∷ b); number = 1; references = 1 }
    ∷ []

cache_to_string-read_rows_example :
    (t : Text) × (cache_to_string (cache (render (a ∷ b ∷ []))) ≡ done t)
    × (read_rows 3 t ≡ two_rows)
cache_to_string-read_rows_example =
    cache_to_string-read_rows (cache (render (a ∷ b ∷ []))) 3
      (
        inr (0, refl, omega arith, (ground arith, (ground arith, (ground arith, tt)))),
        (inr (1, refl, omega arith, (ground arith, (ground arith, tt))), (inl refl, tt)),
      )
      (omega arith)
