-- ===== src/Table/Reading.antt =====
-- Reading a table back: its rows, and the text that they have.
use os_ex.Common.{
  true, false, ℕ, zero, suc, ◌≡◌, ◌≢◌, ◌<◌, refl, ap, Bool, List, [], ◌∷◌, ◌++◌, append_assoc, All,
  All-mono, arith, length, ◌==◌, if◌then◌else◌,
}
use os_ex.Common.Decimal.{to_string_ℕ, value, IsDigit, value-to_string_ℕ, All-IsDigit-to_string_ℕ}
use os_ex.Block.{Text}
use os_ex.Table.{space, newline}

pub record Row : Type 0 where
  pub path : Text
  pub number : ℕ
  pub references : ℕ

-- The text up to a character, and what is behind it.
abbrev pub split_at : ℕ → Text → Text × Text
split_at c [] = ([], [])
split_at c (x ∷ xs) = let (a, b) = split_at c xs in if x == c then ([], xs) else (x ∷ a, b)

unfoldable pub read_row : Text → Row × Text
read_row t =
    let (path, t1) = split_at space t in
    let (number, t2) = split_at space t1 in
    let (references, t3) = split_at newline t2 in
    (record { path = path; number = value 0 number; references = value 0 references }, t3)

abbrev is_nil : Text → Bool
is_nil [] = true
is_nil (c ∷ t) = false

-- The rows of a text, as many as there is fuel.
pub read_rows : ℕ → Text → List Row
read_rows zero t = []
read_rows (suc fuel) t =
    let more = (read_row t).0 ∷ read_rows fuel (read_row t).1 in if is_nil t then [] else more

abbrev pub render_row : Row → Text
render_row r =
    r.path
    ++ (space ∷ (to_string_ℕ r.number ++ (space ∷ (to_string_ℕ r.references ++ (newline ∷ [])))))

abbrev pub render_rows : List Row → Text
render_rows [] = []
render_rows (r ∷ rs) = render_row r ++ render_rows rs

split_at-append :
    (c : ℕ) (xs ys : Text) → All (λ x. x ≢ c) xs → split_at c (xs ++ (c ∷ ys)) ≡ (xs, ys)
split_at-append c [] ys h = ground arith
split_at-append c (x ∷ xs) ys h =
    let other : (x == c) ≡ false = ground (arith, h.0) in rw (other, split_at-append c xs ys h.1)

-- A path that no space or newline breaks.
abbrev pub IsPlain : Row → Type 0
IsPlain r = All (λ c. c ≢ space) r.path

digits_apart : (c n : ℕ) → c < b'0' → All (λ d. d ≢ c) (to_string_ℕ n)
digits_apart c n h =
    All-mono IsDigit (λ d. d ≢ c) (λ d k. omega (arith, k.0)) (to_string_ℕ n)
      (All-IsDigit-to_string_ℕ n)

-- Where the fields of a row end.
parts :
    (r : Row) (t : Text)
    → render_row r ++ t
      ≡ r.path
        ++ (space ∷ (to_string_ℕ r.number ++ (space ∷ (to_string_ℕ r.references ++ (newline ∷ t)))))
parts r t = simp append_assoc

read_row-render_row : (r : Row) (t : Text) → IsPlain r → read_row (render_row r ++ t) ≡ (r, t)
unfolding read_row
read_row-render_row r t h = rw (
  parts r t,
  split_at-append space r.path _ h,
  split_at-append space (to_string_ℕ r.number) _ (digits_apart space r.number (omega arith)),
  split_at-append newline (to_string_ℕ r.references) t
      (digits_apart newline r.references (omega arith)),
  value-to_string_ℕ r.number,
  value-to_string_ℕ r.references,
)

is_nil-append : (xs ys : Text) (c : ℕ) → is_nil (xs ++ (c ∷ ys)) ≡ false
is_nil-append [] ys c = refl
is_nil-append (x ∷ xs) ys c = refl

pub read_rows-render_rows :
    (fuel : ℕ) (rs : List Row)
    → length rs < fuel
    → All IsPlain rs
    → read_rows fuel (render_rows rs) ≡ rs
unfolding read_rows
read_rows-render_rows zero rs f h = absurd (omega arith)
read_rows-render_rows (suc fuel) [] f h = refl
read_rows-render_rows (suc fuel) (r ∷ rs) f h =
    let some : is_nil (render_row r ++ render_rows rs) ≡ false =
      rw (parts r (render_rows rs)) (is_nil-append r.path _ space) in
    rw (some, read_row-render_row r (render_rows rs) h.0)
      (ap (◌∷◌ r) (read_rows-render_rows fuel rs (omega arith) h.1))
