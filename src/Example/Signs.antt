-- ===== src/Example/Signs.antt =====
-- What the methods tell their caller of a call that returned a count.
use os_ex.Common.{ℕ, ◌≡◌, ◌⊎◌, false, List, Outcome, done}
use os_ex.Common.Int.{negated, ℤ, pos, ltb_ℤ}
use os_ex.Block.{Text}
use os_ex.Bbfs.{Answer}
use os_ex.Example.{Request, Line, System, State}
use os_ex.Example.Answers.{Kind, kind_of}

abbrev pub IsNotPositive : ℤ → Type 0
IsNotPositive z = ltb_ℤ (pos 0) z ≡ false

-- The number that the call returned decides the result.
abbrev pub IsNumbered : Request → Type 0
IsNumbered req = (kind_of req ≡ Kind.buffered) ⊎ (kind_of req ≡ Kind.numbered)

module _ (sys : System) (root : Text) (out : List Line) (e : ℕ) (w : sys.World) where
  -- It answers with -errno, which is not a positive number.
  abbrev pub Hides : ℕ → Outcome (Answer × State sys.World) → Type 0
  Hides errno o =
      (a : Answer) × (t : State sys.World) × (o ≡ done (a, t))
      × (a.retstat ≡ negated errno)
      × IsNotPositive a.retstat
