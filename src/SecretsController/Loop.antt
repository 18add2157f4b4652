-- ===== src/SecretsController/Loop.antt =====
-- `Run` of secrets_controller.go.
use kube_aws_iam_controller.Base.Tests.{ℕ, zero, suc, ◌≡◌, ◌≢◌, refl, ◌∙◌, Option, none, some}
use kube_aws_iam_controller.Base.Lists.{List, [], ◌∷◌}
use kube_aws_iam_controller.Base.Int.{◌+ℤ◌, ◌-ℤ◌}
use kube_aws_iam_controller.Base.Outcome.{Outcome, ok, err, panic}
use kube_aws_iam_controller.Base.Select.{
  Wake, tick, terminated, Ended, waiting, returned, crashed, ticks, iterate,
}
use kube_aws_iam_controller.Credentials.Types.{Time}
use kube_aws_iam_controller.SecretsController.Renewal.{SecretsController}
use kube_aws_iam_controller.SecretsController.{refresh}

module _ {S : Type 0} (c : SecretsController S) where
  -- The variable `nextRefresh`, set before a refresh, and the world after it.
  unfoldable pub round : Time × S → Outcome (Unit {0}) × (Time × S)
  round (next_refresh, s) =
      let (now, s1) = c.client.now s in let (r, s2) = refresh c s1 in (r, (now +ℤ c.interval, s2))

  -- What follows a refresh: an error is only logged, a panic ends the program.
  after_round : Outcome (Unit {0}) → (Time × S → Ended × (Time × S)) → Time × S → Ended × (Time × S)
  after_round (ok _) rest st = rest st
  after_round (err e) rest st = rest st
  after_round panic rest st = (crashed, st)

  -- The timer of each round is set for `nextRefresh`.
  unfoldable pub loop : List Wake → Time × S → Ended × (Time × S)
  unfolding after_round
  loop [] st = (waiting, st)
  loop (tick ∷ wakes) st = after_round (round st).0 (loop wakes) (round st).1
  loop (terminated ∷ wakes) st = (returned, st)

  -- `http.ListenAndServe`, an argument, returns only when it fails; while it serves, so does Run.
  unfoldable pub run : (S → Option S) → List Wake → S → Ended × (Time × S)
  run listen_and_serve wakes s =
      let (now, s1) = c.client.now s in
      let next_refresh = now -ℤ c.interval in
      elim (listen_and_serve s1) [
        | none ↦ (waiting, (next_refresh, s1))
        | some s2 ↦ loop wakes (next_refresh, s2)
      ]

  after_round-calm :
      (r : Outcome (Unit {0})) (rest : Time × S → Ended × (Time × S)) (st : Time × S)
      → r ≢ panic
      → after_round r rest st ≡ rest st
  unfolding after_round
  after_round-calm (ok _) rest st h = refl
  after_round-calm (err e) rest st h = refl
  after_round-calm panic rest st h = absurd (h refl)

  loop-ticks :
      (n : ℕ) (later : List Wake) (st : Time × S)
      → ((s : S) → (refresh c s).0 ≢ panic)
      → loop (ticks n later) st ≡ (returned, iterate n (λ st. (round st).1) st)
  unfolding loop ticks iterate round
  loop-ticks zero later st calm = refl
  loop-ticks (suc n) later st calm =
      after_round-calm _ (loop (ticks n later)) (round st).1 (calm _)
      ∙ loop-ticks n later (round st).1 calm

  -- If no refresh panics and the health server does not start, `Run` refreshes once each time its
  -- timer comes, whether or not a refresh fails, each time having read the clock and set the next
  -- refresh to one interval later, and returns when its context ends.
  pub run-ticks_unserved :
      (listen_and_serve : S → Option S) (n : ℕ) (later : List Wake) (s s' : S)
      → listen_and_serve (c.client.now s).1 ≡ some s'
      → ((s : S) → (refresh c s).0 ≢ panic)
      → run listen_and_serve (ticks n later) s ≡ (
        returned,
        iterate n
            (λ (next, t). let (now, t') = c.client.now t in (now +ℤ c.interval, (refresh c t').1))
            ((c.client.now s).0 -ℤ c.interval, s'),
      )
  unfolding run round
  run-ticks_unserved listen_and_serve n later s s' fails calm =
      rw (fails, run) (loop-ticks n later ((c.client.now s).0 -ℤ c.interval, s') calm)
