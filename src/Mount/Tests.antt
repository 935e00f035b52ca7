-- ===== src/Mount/Tests.antt =====
-- `main` with the arguments `p /c /b 10 3 5`, the fractions in tenths.
use os_ex.Common.{◌%◌, ℕ, ◌+◌, ◌*◌, ◌/◌, refl, true, some, [], ◌∷◌, leb, ltb, arith, Option, none}
use os_ex.Common.Int.{ℤ, pos, negsuc}
use os_ex.Block.{Text}
use os_ex.Manager.{Doubles}
use os_ex.Paths.Segments.{render}
use os_ex.Paths.Tests.{b, c, any_data}
use os_ex.Mount.{Host, main}
use os_ex.Mount.Ready.{Rounds, IsReady, main-IsReady}

abbrev tenths_of : ℕ → ℤ → ℕ
tenths_of f (pos n) = f * n / 10
tenths_of f (negsuc n) = 0

abbrev tenths : Doubles
tenths = record {
  Double = ℕ;
  floor_times = λ f n. pos (tenths_of f n);
  floor_below_one = λ f n. ltb (tenths_of f n) 1;
  at_least_one = λ f. leb 10 f;
  sum_above_one = λ f g. ltb 10 (f + g);
}

abbrev ten : Text
ten = b'1' ∷ b'0' ∷ []

-- Numbers are read as their only digit, but for the number of blocks.
abbrev digit : Text → Option ℕ
digit (d ∷ []) = some (d % 48)
digit _ = none

abbrev host : Host tenths
host = record {
  path_max = 32;
  stoi = λ t. some (pos 10);
  stod = digit;
  realpath = λ path. some path;
  stat = λ path. some true;
  fopen = λ path. true;
}

tenths-Rounds : Rounds tenths 10 3 5
tenths-Rounds = record {
  old_floor = refl;
  new_floor = refl;
  sum_floor = λ a c h ea ec. ground arith;
}

main-IsReady_example :
    IsReady any_data tenths host (tt {0}) (b'p' ∷ []) (render (c ∷ [])) (render (b ∷ [])) 10 (
      main tenths host
        (tt {0})
        ((b'p' ∷ []) ∷ render (c ∷ []) ∷ render (b ∷ []) ∷ ten ∷ (b'3' ∷ []) ∷ (b'5' ∷ []) ∷ []))
main-IsReady_example =
    main-IsReady any_data tenths host (tt {0}) (b'p' ∷ []) (render (c ∷ [])) (render (b ∷ [])) ten
      (b'3' ∷ []) (b'5' ∷ []) (render (c ∷ [])) 10 3 5 refl refl refl tenths-Rounds tt refl refl
      refl (omega arith) refl
