-- ===== src/Base/Exec.antt =====
-- Calls that read and change a state and can return an error. A state change made before an error
-- stays, as in the program.
use mathlib.Core.Bool.{Bool, true, false}
use ctf_recruit.Base.Results.{Result, ok, err}

abbrev pub Exec : Type 0 → Type 0 → Type 0 → Type 0
Exec W E A = W → Result E A × W

module _ {W E : Type 0} where
  abbrev pub pure : {A : Type 0} → A → Exec W E A
  pure a w = (ok a, w)

  -- `return err`
  abbrev pub throw : {A : Type 0} → E → Exec W E A
  throw e w = (err e, w)

  abbrev pub resume : {A B : Type 0} → Result E A → W → (A → Exec W E B) → Result E B × W
  resume (ok a) w f = f a w
  resume (err e) w f = (err e, w)

  infixl 5 ◌>>=◌ ◌>>◌
  abbrev pub ◌>>=◌ : {A B : Type 0} → Exec W E A → (A → Exec W E B) → Exec W E B
  ◌>>=◌ m f w = resume (m w).0 (m w).1 f

  abbrev pub ◌>>◌ : {B : Type 0} → Exec W E (Unit {0}) → Exec W E B → Exec W E B
  m >> k = m >>= λ _. k

  -- `value, err := m`, with the error left to the code that follows.
  abbrev pub attempt : {A : Type 0} → Exec W E A → Exec W E (Result E A)
  attempt m w = (ok (m w).0, (m w).1)

  -- `if test { return e }`
  abbrev pub reject_if : Bool → E → Exec W E (Unit {0})
  reject_if true e = throw e
  reject_if false e = pure tt

  abbrev pub renamed : {A : Type 0} → (E → E) → Result E A → W → Result E A × W
  renamed f (ok a) w = (ok a, w)
  renamed f (err e) w = (err (f e), w)

  -- The error is replaced by another, and the value is passed on.
  abbrev pub map_error : {A : Type 0} → (E → E) → Exec W E A → Exec W E A
  map_error f m w = renamed f (m w).0 (m w).1

  -- What holds of a reply: `Q` of a value and the state, `R` of an error and the state.
  abbrev pub Post : {A : Type 0} → (A → W → Type 0) → (E → W → Type 0) → Result E A × W → Type 0
  Post Q R (ok a, w) = Q a w
  Post Q R (err e, w) = R e w
