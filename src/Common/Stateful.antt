-- ===== src/Common/Stateful.antt =====
-- Code that changes a state: a function from the state to a result and the state after it.
use os_ex.Common.Outcomes.{Outcome, done}
use os_ex.Common.Outcomes

infixl 5 ◌>>=◌ ◌>>◌
abbrev pub ◌>>=◌ :
    {S A B : Type 0} → (S → Outcome (A × S)) → (A → S → Outcome (B × S)) → S → Outcome (B × S)
◌>>=◌ m f s = Outcomes.◌>>=◌ (m s) (λ r. f r.0 r.1)

abbrev pub ◌>>◌ :
    {S A B : Type 0} → (S → Outcome (A × S)) → (S → Outcome (B × S)) → S → Outcome (B × S)
m >> k = m >>= λ _. k

abbrev pub pure : {S A : Type 0} → A → S → Outcome (A × S)
pure a s = done (a, s)
