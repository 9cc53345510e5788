-- ===== src/Preserves.antt =====
-- What an action of Exec keeps of the state, whether it returns or throws, and the rules by which a do
-- block keeps it.
use opfs.Prelude.{◌≡◌, refl, Bool, true, false, if◌then◌else◌}
use opfs.Failure.{Result, ok, throw}
use opfs.Exec.{Exec, pure, lift, continue, ◌>>=◌}

pub record Preserves {S A : Type 0} (I : S → Type 0) (m : Exec S A) : Type 0 where
  pub at : (s : S) → I s → I (m s).1

module _ {S : Type 0} {I : S → Type 0} where
  pub kept_after :
      {A B : Type 0} (p : Result A × S) (k : A → Exec S B)
      → I p.1
      → ((a : A) → p.0 ≡ ok a → Preserves I (k a))
      → I (continue p k).1
  kept_after (ok a, s) k h n = (n a refl).at s h
  kept_after (throw e, s) k h n = h

  pub Preserves-then :
      {A B : Type 0} (m : Exec S A) (k : A → Exec S B)
      → Preserves I m
      → ((a : A) → Preserves I (k a))
      → Preserves I (m >>= k)
  Preserves-then m k h n = record { at = λ s i. kept_after (m s) k (h.at s i) λ a e. n a }

  pub Preserves-lift : {A : Type 0} (r : Result A) → Preserves I (lift r)
  Preserves-lift r = record { at = λ s i. i }

  pub Preserves-pure : {A : Type 0} (a : A) → Preserves I (pure a)
  Preserves-pure a = record { at = λ s i. i }

  pub Preserves-if :
      {A : Type 0} (t : Bool) (m n : Exec S A)
      → Preserves I m
      → Preserves I n
      → Preserves I (if t then m else n)
  Preserves-if true m n h k = h
  Preserves-if false m n h k = k

pub ruleset preserves_rules = (Preserves-then, Preserves-lift, Preserves-pure, Preserves-if)
