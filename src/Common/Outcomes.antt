-- ===== src/Common/Outcomes.antt =====
-- What a piece of C++ does: it goes on with a value, it ends the process, or it does something
-- that the language gives no meaning. A function that changes an object returns the new object.
use mathlib.Core.Bool.{Bool, true, false}
use mathlib.Core.Path.{◌≡◌, refl}
use Prim.Native.Nat.{ℕ}

-- `bad_iterator`: an iterator is used that names no node, or is moved before the first one.
-- `int_overflow`: a signed sum leaves the range of `int`.
-- `bad_index`: a character before the first one of a string is read.
-- `bad_copy`: bytes are copied from outside the initialised part of a buffer, or past the end of
-- the destination.
-- `bad_division`: a division by zero.
-- `uninitialised`: a value is used that was never set.
pub data Fault : Type 0 where
  bad_iterator int_overflow bad_index bad_copy bad_division uninitialised : Fault

pub data Outcome {ℓ} (A : Type ℓ) : Type ℓ where
  done : A → Outcome A
  undefined : Fault → Outcome A
  exited : ℕ → Outcome A

infixl 5 ◌>>=◌ ◌>>◌
abbrev pub ◌>>=◌ {ℓ κ} : {A : Type ℓ} {B : Type κ} → Outcome A → (A → Outcome B) → Outcome B
done a >>= f = f a
undefined e >>= f = undefined e
exited n >>= f = exited n

abbrev pub ◌>>◌ {ℓ} : {B : Type ℓ} → Outcome (Unit {0}) → Outcome B → Outcome B
m >> k = m >>= λ _. k

-- Goes on if the test holds.
abbrev pub require : Bool → Fault → Outcome (Unit {0})
require true e = done tt
require false e = undefined e

-- Inversion of a bind that goes on, for proofs where the parts stay shut.
pub >>=-eq-done {ℓ κ} :
    {A : Type ℓ} {B : Type κ} (m : Outcome A) (f : A → Outcome B) {b : B}
    → (m >>= f) ≡ done b
    → (a : A) × (m ≡ done a) × (f a ≡ done b)
>>=-eq-done (done a) f h = (a, refl, h)
>>=-eq-done (undefined e) f h = cc
>>=-eq-done (exited n) f h = cc

-- Whatever it gives is so.
abbrev pub Ensures : {A : Type 0} → (A → Type 0) → Outcome A → Type 0
Ensures Q (done a) = Q a
Ensures Q (undefined e) = Unit {0}
Ensures Q (exited n) = Unit {0}

pub Ensures-bind :
    {A B : Type 0} (Q : B → Type 0) (o : Outcome A) (f : A → Outcome B)
    → ((a : A) → o ≡ done a → Ensures Q (f a))
    → Ensures Q (o >>= f)
Ensures-bind Q (done a) f q = q a refl
Ensures-bind Q (undefined e) f q = tt
Ensures-bind Q (exited n) f q = tt

pub Ensures-mono :
    {A : Type 0} (Q R : A → Type 0)
    → ((a : A) → Q a → R a)
    → (o : Outcome A) → Ensures Q o
    → Ensures R o
Ensures-mono Q R h (done a) q = h a q
Ensures-mono Q R h (undefined e) q = tt
Ensures-mono Q R h (exited n) q = tt
