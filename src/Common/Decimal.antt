-- ===== src/Common/Decimal.antt =====
-- `std::to_string` of an integer, and the number that digits spell.
use os_ex.Common.{
  ℕ, zero, suc, ◌+◌, ◌-◌, ◌*◌, ◌/◌, ◌%◌, ◌≡◌, ◌∙◌, ◌≤◌, ◌<◌, ap, inl, inr, Bool-cases, List, [],
  ◌∷◌, All, arith, ltb, ltb→lt, if◌then◌else◌,
}
use mathlib.Core.List.{foldl}
use os_ex.Common.Int.{ℤ, pos, negsuc}

-- The digits of the number in front of those given, with a round for each digit.
unfoldable pub digits : ℕ → ℕ → List ℕ → List ℕ
digits zero n out = out
digits (suc fuel) n out =
    let rest = digits fuel (n / 10) ((b'0' + n % 10) ∷ out) in
    if ltb n 10 then (b'0' + n) ∷ out else rest

-- A number has fewer digits than it counts, but for those below ten.
unfoldable pub to_string_ℕ : ℕ → List ℕ
to_string_ℕ n = digits (suc n) n []

unfoldable pub to_string : ℤ → List ℕ
unfolding to_string_ℕ
to_string (pos n) = to_string_ℕ n
to_string (negsuc n) = b'-' ∷ to_string_ℕ (suc n)

-- The number that digits spell behind a number.
abbrev pub value : ℕ → List ℕ → ℕ
value = foldl (λ n c. n * 10 + (c - b'0'))

value-digits : (fuel n : ℕ) (out : List ℕ) → n < fuel → value 0 (digits fuel n out) ≡ value n out
unfolding digits
value-digits zero n out h = absurd (omega arith)
value-digits (suc fuel) n out h = elim (Bool-cases (ltb n 10)) [
  | inl small ↦ rw small (ap (λ k. value k out) (omega arith))
  | inr large ↦ rw large (
      value-digits fuel (n / 10) ((b'0' + n % 10) ∷ out) (ground arith)
      ∙ ap (λ k. value k out) (omega arith))
]

abbrev pub IsDigit : ℕ → Type 0
IsDigit c = (b'0' ≤ c) × (c ≤ b'9')

All-IsDigit-digits : (fuel n : ℕ) (out : List ℕ) → All IsDigit out → All IsDigit (digits fuel n out)
unfolding digits
All-IsDigit-digits zero n out h = h
All-IsDigit-digits (suc fuel) n out h = elim (Bool-cases (ltb n 10)) [
  | inl small ↦ rw small ((omega arith, omega (arith, ltb→lt n 10 small)), h)
  | inr large ↦ rw large (All-IsDigit-digits fuel (n / 10) _ ((omega arith, omega arith), h))
]

-- Reading the text of a number gives the number.
pub value-to_string_ℕ : (n : ℕ) → value 0 (to_string_ℕ n) ≡ n
unfolding to_string_ℕ
value-to_string_ℕ n = value-digits (suc n) n [] (omega arith)

pub All-IsDigit-to_string_ℕ : (n : ℕ) → All IsDigit (to_string_ℕ n)
unfolding to_string_ℕ
All-IsDigit-to_string_ℕ n = All-IsDigit-digits (suc n) n [] tt
