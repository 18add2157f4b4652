-- ===== src/SecretsController/Liveness.antt =====
-- The liveness check of `Run` of secrets_controller.go.
use kube_aws_iam_controller.Base.Tests.{
  ℕ, ◌+◌, ◌-◌, ◌*◌, ◌^◌, ◌<◌, ◌≡◌, ◌↔◌, refl, ap, ◌∙◌, Option, none, Bool, true, not, arith,
  if◌then◌else◌,
}
use kube_aws_iam_controller.Base.Lists.{List}
use kube_aws_iam_controller.Base.Int.{
  pos, negsuc, ◌+ℤ◌, ◌-ℤ◌, ◌≤ℤ◌, ltb_ℤ, wrap_int64, +ℤ_parts, -ℤ_parts,
}
use kube_aws_iam_controller.Base.Select.{Wake, waiting}
use kube_aws_iam_controller.Credentials.Types.{Time, Duration}
use kube_aws_iam_controller.SecretsController.Renewal.{SecretsController}
use kube_aws_iam_controller.SecretsController.Loop.{round, run}

-- `5*c.interval`, in the 64 bits of a duration.
unfoldable pub five_times : Duration → Duration
five_times (pos n) = wrap_int64 (5 * n)
five_times (negsuc n) = wrap_int64 (5 * 2 ^ 64 - 5 * (n + 1))

-- `now.Sub(t)`, as `time.Since` computes it: the nearest duration.
unfoldable pub since : Time → Time → Duration
since now t =
    let d = now -ℤ t in
    if ltb_ℤ (pos (2 ^ 63 - 1)) d
    then pos (2 ^ 63 - 1)
    else if ltb_ℤ d (negsuc (2 ^ 63 - 1))
    then negsuc (2 ^ 63 - 1)
    else d

module _ {S : Type 0} (c : SecretsController S) where
  -- The liveness check "nextRefresh", at a time: whether it gives no error.
  unfoldable pub is_live : Time → Time → Bool
  is_live next_refresh now = not (ltb_ℤ (five_times c.interval) (since now next_refresh))

  five_times_small : (n : ℕ) → 5 * n + 1 < 2 ^ 63 → five_times (pos n) ≡ pos (5 * n)
  unfolding five_times wrap_int64
  five_times_small n small = ground arith

  since-ltb :
      (n : ℕ) (now t : Time)
      → n + 1 < 2 ^ 63
      → (not (ltb_ℤ (pos n) (since now t)) ≡ true) ↔ (now ≤ℤ t +ℤ pos n)
  unfolding since
  since-ltb n now t small = ground (arith, +ℤ_parts t (pos n), -ℤ_parts now t)

  is_live_iff :
      (n : ℕ) (next_refresh now : Time)
      → c.interval ≡ pos n
      → 5 * n + 1 < 2 ^ 63
      → (is_live next_refresh now ≡ true) ↔ (now ≤ℤ next_refresh +ℤ pos (5 * n))
  unfolding is_live
  is_live_iff n next_refresh now e small =
      rw (e, five_times_small n small) (since-ltb (5 * n) now next_refresh small)

  is_live_until :
      (n : ℕ) (next_refresh now bound : Time)
      → c.interval ≡ pos n
      → 5 * n + 1 < 2 ^ 63
      → next_refresh +ℤ pos (5 * n) ≡ bound
      → (is_live next_refresh now ≡ true) ↔ (now ≤ℤ bound)
  is_live_until n next_refresh now bound e small same =
      rw (← same) (is_live_iff n next_refresh now e small)

  shift : (n m k : ℕ) (a : Time) → n + m ≡ k → a +ℤ pos n +ℤ pos m ≡ a +ℤ pos k
  unfolding ◌+ℤ◌
  shift n m k a e = ground arith

  back : (n m k : ℕ) (a : Time) → n + m ≡ k → a -ℤ pos n +ℤ pos k ≡ a +ℤ pos m
  unfolding ◌+ℤ◌ ◌-ℤ◌
  back n m k a e = ground arith

  -- For an interval that is not negative, and five of which are less than the largest duration: after
  -- a round of the loop the liveness check holds until six intervals after the round began, and
  -- fails later. Before the first round, and for as long as the health server runs and so keeps
  -- the loop from starting, it holds until four intervals after the start, and fails later.
  pub is_live-run :
      (n : ℕ) (listen_and_serve : S → Option S) (wakes : List Wake) (next_refresh : Time) (s : S)
      (t : Time)
      → c.interval ≡ pos n
      → 5 * n + 1 < 2 ^ 63
      → listen_and_serve (c.client.now s).1 ≡ none
      → ((is_live (round c (next_refresh, s)).1.0 t ≡ true)
          ↔ (t ≤ℤ (c.client.now s).0 +ℤ pos (6 * n)))
        × ((run c listen_and_serve wakes s).0 ≡ waiting)
        × ((is_live (run c listen_and_serve wakes s).1.0 t ≡ true)
            ↔ (t ≤ℤ (c.client.now s).0 +ℤ pos (4 * n)))
  unfolding round run
  is_live-run n listen_and_serve wakes next_refresh s t e small serves = (
    is_live_until n ((c.client.now s).0 +ℤ c.interval) t _ e small (
        ap (λ i. (c.client.now s).0 +ℤ i +ℤ pos (5 * n)) e
        ∙ shift n (5 * n) (6 * n) (c.client.now s).0 (omega arith)),
    rw (serves, run) refl,
    rw (serves, run)
        (is_live_until n ((c.client.now s).0 -ℤ c.interval) t _ e small (
          ap (λ i. (c.client.now s).0 -ℤ i +ℤ pos (5 * n)) e
          ∙ back n (4 * n) (5 * n) (c.client.now s).0 (omega arith))),
  )
