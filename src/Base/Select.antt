-- ===== src/Base/Select.antt =====
-- The `select` of a loop that waits for its timer or for the end of its context. Which of the two
-- comes is not up to the program: the loop is given the list of what it wakes up to.
use kube_aws_iam_controller.Base.Tests.{ℕ, zero, suc}
use kube_aws_iam_controller.Base.Lists.{List, ◌∷◌}

pub data Wake : Type 0 where
  tick terminated : Wake

-- How far the loop has come when the list is over.
pub data Ended : Type 0 where
  waiting returned crashed : Ended

-- The timer comes `n` times, and then the context ends.
unfoldable pub ticks : ℕ → List Wake → List Wake
ticks zero later = terminated ∷ later
ticks (suc n) later = tick ∷ ticks n later

unfoldable pub iterate : {S : Type 0} → ℕ → (S → S) → S → S
iterate zero f s = s
iterate (suc n) f s = iterate n f (f s)
