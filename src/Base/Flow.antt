-- ===== src/Base/Flow.antt =====
-- The body of a loop in Go over a state of the world: it ends in a value, leaves the round by
-- `continue`, or panics. What was done before stays done.
pub mod Keeps
pub mod Reaches
pub mod Rounds
use kube_aws_iam_controller.Base.Lists.{List, [], ◌∷◌}
use kube_aws_iam_controller.Base.Outcome.{Outcome, ok, err, panic}
use kube_aws_iam_controller.Base.Text.{Text}

pub data Flow {ℓ} (A : Type ℓ) : Type ℓ where
  next : A → Flow A
  skip : Flow A
  crash : Flow A

abbrev pub Step {ℓ} : Type ℓ → Type ℓ → Type ℓ
Step S A = S → Flow A × S

-- A call of a service or of a function that may fail.
abbrev pub Call {ℓ} : Type ℓ → Type ℓ → Type ℓ
Call S A = S → Outcome A × S

module _ {ℓ} {S A : Type ℓ} where
  unfoldable pub done : A → Step S A
  done a s = (next a, s)

  unfoldable pub continue : Step S A
  continue s = (skip, s)

  -- Run something that only changes the world.
  unfoldable pub failed_by : Outcome A → (Text → S → S) → Step S A
  failed_by (ok a) failed s = (next a, s)
  failed_by (err e) failed s = (skip, failed e s)
  failed_by panic failed s = (crash, s)

  -- `a, err := call(); if err != nil { failed(err); continue }`
  unfoldable pub attempt : Call S A → (Text → S → S) → Step S A
  unfolding failed_by
  attempt call failed s = let (r, s') = call s in failed_by r failed s'

module _ {ℓ} {S : Type ℓ} where
  -- A statement that always goes on.
  unfoldable pub effect : (S → S) → Step S (Unit {ℓ})
  effect f s = (next tt, f s)

module _ {ℓ} {S A B : Type ℓ} where
  abbrev pub then_step : Flow A → (A → Step S B) → Step S B
  then_step (next a) f s = f a s
  then_step skip f s = (skip, s)
  then_step crash f s = (crash, s)

  infixl 5 ◌>>=◌ ◌>>◌
  -- Opening this opens the actions above too.
  unfoldable pub ◌>>=◌ : Step S A → (A → Step S B) → Step S B
  unfolding done continue failed_by attempt effect
  ◌>>=◌ m f s = let (r, s') = m s in then_step r f s'

  abbrev pub ◌>>◌ : Step S A → Step S B → Step S B
  m >> n = m >>= λ _. n

  -- After a round of a loop: the next rounds, unless it panicked.
  unfoldable pub next_round : Flow A × S → Step S B → Flow B × S
  next_round (next a, s) rest = rest s
  next_round (skip, s) rest = rest s
  next_round (crash, s) rest = (crash, s)

module _ {ℓ} {S X : Type ℓ} where
  -- `for _, x := range xs { body }`
  unfoldable pub for_each : List X → (X → Step S (Unit {ℓ})) → Step S (Unit {ℓ})
  unfolding next_round
  for_each [] body s = (next tt, s)
  for_each (x ∷ xs) body s = next_round (body x s) (for_each xs body)
