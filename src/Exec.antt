-- ===== src/Exec.antt =====
-- Asynchronous methods that change a state and may throw. What was changed before a throw stays
-- changed, so the state comes back beside the failure too.
use opfs.Failure.{Result, ok, throw, Thrown}

abbrev pub Exec {ℓ} : Type ℓ → Type ℓ → Type ℓ
Exec S A = S → Result A × S

module _ {ℓ} {S A : Type ℓ} where
  abbrev pub raise : Thrown → Exec S A
  raise e s = (throw e, s)

  abbrev pub lift : Result A → Exec S A
  lift outcome state = (outcome, state)

  abbrev pub pure : A → Exec S A
  pure value state = (ok value, state)

  -- A read that leaves the state alone.
  abbrev pub gets : (S → A) → Exec S A
  gets f s = (ok (f s), s)

module _ {ℓ} {S A B : Type ℓ} where
  abbrev pub continue : Result A × S → (A → Exec S B) → Result B × S
  continue (ok a, s) f = f a s
  continue (throw e, s) f = (throw e, s)

  infixl 5 ◌>>=◌ ◌>>◌
  abbrev pub ◌>>=◌ : Exec S A → (A → Exec S B) → Exec S B
  ◌>>=◌ m f s = continue (m s) f

  abbrev pub ◌>>◌ : Exec S A → Exec S B → Exec S B
  m >> n = m >>= λ _. n
