-- ===== src/AwsIamRoleController/Loop.antt =====
-- `Run` of awsiamrole_controller.go.
use kube_aws_iam_controller.Base.Tests.{ℕ, zero, suc, ◌≡◌, ◌≢◌, refl}
use kube_aws_iam_controller.Base.Lists.{List, [], ◌∷◌}
use kube_aws_iam_controller.Base.Outcome.{Outcome, ok, err, panic}
use kube_aws_iam_controller.Base.Select.{
  Wake, tick, terminated, Ended, waiting, returned, crashed, ticks, iterate,
}
use kube_aws_iam_controller.AwsIamRoleController.Renewal.{AwsIamRoleController}
use kube_aws_iam_controller.AwsIamRoleController.{refresh}

module _ {S : Type 0} (c : AwsIamRoleController S) where
  -- What follows a refresh: an error is only logged, a panic ends the program.
  go_on : List Wake → Outcome (Unit {0}) × S → Ended × S
  go_on wakes (panic, s) = (crashed, s)
  go_on [] (_, s) = (waiting, s)
  go_on (tick ∷ wakes) (_, s) = go_on wakes (refresh c s)
  go_on (terminated ∷ wakes) (_, s) = (returned, s)

  unfoldable pub run : List Wake → S → Ended × S
  unfolding go_on
  run wakes s = go_on wakes (refresh c s)

  go_on-ticks :
      (n : ℕ) (later : List Wake) (r : Outcome (Unit {0})) (s : S)
      → ((s : S) → (refresh c s).0 ≢ panic)
      → r ≢ panic
      → go_on (ticks n later) (r, s) ≡ (returned, iterate n (λ s. (refresh c s).1) s)
  unfolding go_on ticks iterate
  go_on-ticks n later panic s calm h = absurd (h refl)
  go_on-ticks zero later (ok _) s calm h = refl
  go_on-ticks zero later (err e) s calm h = refl
  go_on-ticks (suc n) later (ok _) s calm h =
      go_on-ticks n later (refresh c s).0 (refresh c s).1 calm (calm s)
  go_on-ticks (suc n) later (err e) s calm h =
      go_on-ticks n later (refresh c s).0 (refresh c s).1 calm (calm s)

  -- If no refresh panics, `Run` refreshes once at its start and once each time its timer comes,
  -- whether or not a refresh fails, and returns when its context ends.
  pub run-ticks :
      (n : ℕ) (later : List Wake) (s : S)
      → ((s : S) → (refresh c s).0 ≢ panic)
      → run (ticks n later) s ≡ (returned, iterate (suc n) (λ s. (refresh c s).1) s)
  unfolding run iterate
  run-ticks n later s calm = go_on-ticks n later (refresh c s).0 (refresh c s).1 calm (calm s)
