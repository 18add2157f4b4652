-- ===== src/StartUp/Running/Serving.antt =====
-- The process of main.go while its health endpoint is served.
use kube_aws_iam_controller.Base.Tests.{◌≡◌, refl, ◌∙◌, Option, none, some, ◌⊎◌, inl, inr}
use kube_aws_iam_controller.Base.Int.{◌-ℤ◌}
use kube_aws_iam_controller.Base.Outcome.{Outcome, ok, err, panic}
use kube_aws_iam_controller.AwsIamRoleController.{refresh as refresh_roles}
use kube_aws_iam_controller.StartUp.Main.{Controllers}
use kube_aws_iam_controller.StartUp.Running.{
  starting, serving, killed, panicked, Program, start_controllers, refreshed, roles_refresh, Move,
  by_signal, by_handler, by_roles, by_secrets, killed_by_sigterm, sigterm, notifies, receives,
  cancels, roles_refreshes, roles_wakes, roles_returns, server_fails, secrets_wakes,
  secrets_returns, Reach, here, further,
}

module _ {S : Type 0} (c : Controllers S) where
  -- The process was killed before `signal.Notify`, or a refresh of the AWSIAMRole controller panicked.
  abbrev pub EndedEarly : Program S → Type 0
  EndedEarly p =
      ((p.ending ≡ some killed) × (p.handler ≡ starting))
      ⊎ ((p.ending ≡ some panicked) × ((s : S) × ((refresh_roles c.aws_iam_roles s).0 ≡ panic)))

  -- The secrets controller stands where it started.
  pub record StaysServing (s : S) (p : Program S) : Type 0 where
    pub serves_on : p.secrets_run ≡ serving
    pub same_time : p.next_refresh ≡ (c.secrets.client.now s).0 -ℤ c.secrets.interval
    pub still_runs : (p.ending ≡ none) ⊎ EndedEarly p

  -- A step that leaves `Run` of the secrets controller alone.
  serving_on :
      (s : S) (p q : Program S)
      → StaysServing s p
      → q.secrets_run ≡ p.secrets_run
      → q.next_refresh ≡ p.next_refresh
      → (q.ending ≡ none) ⊎ EndedEarly q
      → StaysServing s q
  serving_on s p q h same same' runs = record {
    serves_on = same ∙ h.serves_on;
    same_time = same' ∙ h.same_time;
    still_runs = runs;
  }

  refreshed-StaysServing :
      (s t : S) (r : Outcome (Unit {0})) (p : Program S)
      → StaysServing s p
      → p.ending ≡ none
      → (refresh_roles c.aws_iam_roles t).0 ≡ r
      → StaysServing s (refreshed c r p)
  unfolding refreshed
  refreshed-StaysServing s t (ok _) p h runs e = h
  refreshed-StaysServing s t (err _) p h runs e = h
  refreshed-StaysServing s t panic p h runs e =
      serving_on s p (record p { ending = some panicked }) h refl refl (inr (inr (refl, (t, e))))

  Move-StaysServing :
      (listen_and_serve : S → Option S) (s : S) {p q : Program S}
      → ((t : S) → listen_and_serve t ≡ none)
      → StaysServing s p
      → p.ending ≡ none
      → Move c listen_and_serve p q
      → StaysServing s q
  unfolding roles_refresh
  Move-StaysServing l s {p} serves h runs (by_signal (killed_by_sigterm at e)) =
      rw e (serving_on s p _ h refl refl (inr (inl (refl, at))))
  Move-StaysServing l s {p} serves h runs (by_signal (sigterm at e)) =
      rw e (serving_on s p _ h refl refl (inl runs))
  Move-StaysServing l s {p} serves h runs (by_handler (notifies at e)) =
      rw e (serving_on s p _ h refl refl (inl runs))
  Move-StaysServing l s {p} serves h runs (by_handler (receives at there e)) =
      rw e (serving_on s p _ h refl refl (inl runs))
  Move-StaysServing l s {p} serves h runs (by_handler (cancels at e)) =
      rw e (serving_on s p _ h refl refl (inl runs))
  Move-StaysServing l s {p} serves h runs (by_roles (roles_refreshes at e)) =
      rw e
        (refreshed-StaysServing s p.world _ _ (serving_on s p _ h refl refl (inl runs)) runs refl)
  Move-StaysServing l s {p} serves h runs (by_roles (roles_wakes at e)) =
      rw e (serving_on s p _ h refl refl (inl runs))
  Move-StaysServing l s {p} serves h runs (by_roles (roles_returns at there e)) =
      rw e (serving_on s p _ h refl refl (inl runs))
  Move-StaysServing l s {p} serves h runs (by_secrets (server_fails t at fails e)) =
      let served = serves p.world in absurd cc
  Move-StaysServing l s {p} serves h runs (by_secrets (secrets_wakes at e)) =
      let on = h.serves_on in absurd cc
  Move-StaysServing l s {p} serves h runs (by_secrets (secrets_returns at there e)) =
      let on = h.serves_on in absurd cc

  -- While the health server runs, however the steps of the goroutines and the signals interleave from
  -- the end of `main` on: `Run` of the secrets controller stays in `http.ListenAndServe`, refreshes
  -- nothing and leaves its time as it was set, and the process goes on, also after a SIGTERM, unless
  -- the signal came before `signal.Notify` or a refresh of the AWSIAMRole controller panicked.
  pub Reach-StaysServing :
      (listen_and_serve : S → Option S) (s : S) (p : Program S)
      → ((t : S) → listen_and_serve t ≡ none)
      → Reach c listen_and_serve (start_controllers c s) p
      → StaysServing s p
  unfolding start_controllers
  Reach-StaysServing l s p serves here = record {
    serves_on = refl;
    same_time = refl;
    still_runs = inl refl;
  }
  Reach-StaysServing l s p serves (further {q} r runs m) =
      Move-StaysServing l s serves (Reach-StaysServing l s q serves r) runs m
