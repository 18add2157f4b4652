-- ===== src/StartUp/Running/Returns.antt =====
-- When the process of main.go comes to an end, and that a SIGTERM can end it.
use kube_aws_iam_controller.Base.Tests.{
  ℕ, ◌+◌, ◌≡◌, ◌≢◌, refl, ◌∙◌, sym, Bool, true, false, Option, none, some, ◌⊎◌, inl, inr,
}
use kube_aws_iam_controller.Base.Outcome.{Outcome, ok, err, panic}
use kube_aws_iam_controller.StartUp.Main.{Controllers}
use kube_aws_iam_controller.StartUp.Running.{
  Handler, stopped, starting, listening, received, finished, selecting, main_returned, Program,
  start_controllers, refreshed, roles_refresh, secrets_round, Move, by_signal, by_handler, by_roles,
  by_secrets, killed_by_sigterm, sigterm, notifies, receives, cancels, roles_refreshes, roles_wakes,
  roles_returns, server_fails, secrets_wakes, secrets_returns, Reach, here, further,
}

module _ {S : Type 0} (c : Controllers S) where
  -- What holds at every step.
  record InOrder (p : Program S) : Type 0 where
    when_cancelled : p.cancelled ≡ true → p.handler ≡ finished
    when_finished : p.handler ≡ finished → p.cancelled ≡ true
    when_stopped : p.roles_run ≡ stopped → p.cancelled ≡ true
    when_returned :
        p.ending ≡ some main_returned → (p.cancelled ≡ true) × (p.secrets_run ≡ selecting)

  refreshed-InOrder :
      (r : Outcome (Unit {0})) (p : Program S) → InOrder p → InOrder (refreshed c r p)
  unfolding refreshed
  refreshed-InOrder (ok _) p h = h
  refreshed-InOrder (err _) p h = h
  refreshed-InOrder panic p h = record {
    when_cancelled = h.when_cancelled;
    when_finished = h.when_finished;
    when_stopped = h.when_stopped;
    when_returned = λ e. absurd cc;
  }

  -- The steps at which nothing of it changes but the place of one goroutine.
  same_order :
      (p q : Program S)
      → InOrder p
      → p.ending ≡ none
      → q.cancelled ≡ p.cancelled
      → (q.handler ≡ p.handler) ⊎ ((q.handler ≢ finished) × (p.handler ≢ finished))
      → (q.roles_run ≡ p.roles_run) ⊎ ((q.roles_run ≢ stopped) ⊎ (p.cancelled ≡ true))
      → (q.ending ≢ some main_returned)
      → InOrder q
  same_order p q h runs same handler roles goes_on = record {
    when_cancelled = λ e. elim handler [
      | inl e' ↦ e' ∙ h.when_cancelled (sym same ∙ e)
      | inr (_, different) ↦ absurd (different (h.when_cancelled (sym same ∙ e)))
    ];
    when_finished = λ e. elim handler [
      | inl e' ↦ same ∙ h.when_finished (sym e' ∙ e)
      | inr (different, _) ↦ absurd (different e)
    ];
    when_stopped = λ e. elim roles [
      | inl e' ↦ same ∙ h.when_stopped (sym e' ∙ e)
      | inr (inl different) ↦ absurd (different e)
      | inr (inr there) ↦ same ∙ there
    ];
    when_returned = λ e. absurd (goes_on e);
  }

  Move-InOrder :
      (listen_and_serve : S → Option S) {p q : Program S}
      → InOrder p
      → p.ending ≡ none
      → Move c listen_and_serve p q
      → InOrder q
  unfolding roles_refresh secrets_round
  Move-InOrder l {p} h runs (by_signal (killed_by_sigterm at e)) =
      rw e (same_order p _ h runs refl (inl refl) (inl refl) (λ e'. cc))
  Move-InOrder l {p} h runs (by_signal (sigterm at e)) =
      rw e (same_order p _ h runs refl (inl refl) (inl refl) (λ e'. cc))
  Move-InOrder l {p} h runs (by_handler (notifies at e)) =
      rw e (same_order p _ h runs refl (inr ((λ e'. cc), λ e'. cc)) (inl refl) (λ e'. cc))
  Move-InOrder l {p} h runs (by_handler (receives at there e)) =
      rw e (same_order p _ h runs refl (inr ((λ e'. cc), λ e'. cc)) (inl refl) (λ e'. cc))
  Move-InOrder l {p} h runs (by_handler (cancels at e)) = rw e (record {
    when_cancelled = λ e'. refl;
    when_finished = λ e'. refl;
    when_stopped = λ e'. refl;
    when_returned = λ e'. absurd cc;
  })
  Move-InOrder l {p} h runs (by_roles (roles_refreshes at e)) = rw e (
      refreshed-InOrder _ _
        (same_order p _ h runs refl (inl refl) (inr (inl (λ e'. cc))) (λ e'. cc)))
  Move-InOrder l {p} h runs (by_roles (roles_wakes at e)) =
      rw e (same_order p _ h runs refl (inl refl) (inr (inl (λ e'. cc))) (λ e'. cc))
  Move-InOrder l {p} h runs (by_roles (roles_returns at there e)) =
      rw e (same_order p _ h runs refl (inl refl) (inr (inr there)) (λ e'. cc))
  Move-InOrder l {p} h runs (by_secrets (server_fails t at fails e)) =
      rw e (same_order p _ h runs refl (inl refl) (inl refl) (λ e'. cc))
  Move-InOrder l {p} h runs (by_secrets (secrets_wakes at e)) =
      rw e (refreshed-InOrder _ _ (same_order p _ h runs refl (inl refl) (inl refl) (λ e'. cc)))
  Move-InOrder l {p} h runs (by_secrets (secrets_returns at there e)) = rw e (record {
    when_cancelled = h.when_cancelled;
    when_finished = h.when_finished;
    when_stopped = h.when_stopped;
    when_returned = λ e'. (there, at);
  })

  Reach-InOrder :
      (listen_and_serve : S → Option S) (s : S) (p : Program S)
      → Reach c listen_and_serve (start_controllers c s) p
      → InOrder p
  unfolding start_controllers
  Reach-InOrder l s p here = record {
    when_cancelled = λ e. absurd cc;
    when_finished = λ e. absurd cc;
    when_stopped = λ e. absurd cc;
    when_returned = λ e. absurd cc;
  }
  Reach-InOrder l s p (further {q} r runs m) = Move-InOrder l (Reach-InOrder l s q r) runs m

  -- The signals that a step sends.
  sent : (listen_and_serve : S → Option S) {p q : Program S} → Move c listen_and_serve p q → ℕ
  sent l (by_signal _) = 1
  sent l (by_handler _) = 0
  sent l (by_roles _) = 0
  sent l (by_secrets _) = 0

  -- The refreshes, of both controllers, that a step makes.
  refreshes_of :
      (listen_and_serve : S → Option S) {p q : Program S} → Move c listen_and_serve p q → ℕ
  refreshes_of l (by_signal _) = 0
  refreshes_of l (by_handler _) = 0
  refreshes_of l (by_roles (roles_refreshes _ _)) = 1
  refreshes_of l (by_roles (roles_wakes _ _)) = 0
  refreshes_of l (by_roles (roles_returns _ _ _)) = 0
  refreshes_of l (by_secrets (server_fails _ _ _ _)) = 0
  refreshes_of l (by_secrets (secrets_wakes _ _)) = 1
  refreshes_of l (by_secrets (secrets_returns _ _ _)) = 0

  -- The signals that come on the way, and the refreshes that are made on it.
  unfoldable pub sigterms :
      (listen_and_serve : S → Option S) {p q : Program S} → Reach c listen_and_serve p q → ℕ
  unfolding sent
  sigterms l here = 0
  sigterms l (further r _ m) = sigterms l r + sent l m

  unfoldable pub refreshes :
      (listen_and_serve : S → Option S) {p q : Program S} → Reach c listen_and_serve p q → ℕ
  unfolding refreshes_of
  refreshes l here = 0
  refreshes l (further r _ m) = refreshes l r + refreshes_of l m

  -- The signals that the handler still needs: one, if it waits and none is in the channel.
  unfoldable pub sigterms_needed : Handler → Bool → ℕ
  sigterms_needed listening false = 1
  sigterms_needed _ _ = 0

  -- From here the process can return from `main`, with so many signals more and no refresh.
  abbrev pub CanReturn : (S → Option S) → ℕ → Program S → Type 0
  CanReturn listen_and_serve n p =
      (q : Program S) × (way : Reach c listen_and_serve p q) × (q.ending ≡ some main_returned)
      × (sigterms listen_and_serve way ≡ n)
      × (refreshes listen_and_serve way ≡ 0)

  cancelled-CanReturn :
      (listen_and_serve : S → Option S) (p : Program S)
      → p.ending ≡ none
      → p.secrets_run ≡ selecting
      → p.cancelled ≡ true
      → CanReturn listen_and_serve 0 p
  unfolding sigterms refreshes
  cancelled-CanReturn l p runs at there =
      (_, further here runs (by_secrets (secrets_returns at there refl)), refl, refl, refl)

  received-CanReturn :
      (listen_and_serve : S → Option S) (p : Program S)
      → p.ending ≡ none
      → p.secrets_run ≡ selecting
      → p.handler ≡ received
      → CanReturn listen_and_serve 0 p
  unfolding sigterms refreshes
  received-CanReturn l p runs at got =
      let last = further here runs (by_handler (cancels got refl)) in
      (_, further last runs (by_secrets (secrets_returns at refl refl)), refl, refl, refl)

  signalled-CanReturn :
      (listen_and_serve : S → Option S) (p : Program S)
      → p.ending ≡ none
      → p.secrets_run ≡ selecting
      → p.handler ≡ listening
      → p.signals ≡ true
      → CanReturn listen_and_serve 0 p
  unfolding sigterms refreshes
  signalled-CanReturn l p runs at waits came =
      let first = further here runs (by_handler (receives waits came refl)) in
      let last = further first runs (by_handler (cancels refl refl)) in
      (_, further last runs (by_secrets (secrets_returns at refl refl)), refl, refl, refl)

  listening-CanReturn :
      (listen_and_serve : S → Option S) (p : Program S)
      → p.ending ≡ none
      → p.secrets_run ≡ selecting
      → p.handler ≡ listening
      → CanReturn listen_and_serve 1 p
  unfolding sigterms refreshes
  listening-CanReturn l p runs at waits =
      let set : p.handler ≢ starting = λ e. cc in
      let sends = further here runs (by_signal (sigterm set refl)) in
      let first = further sends runs (by_handler (receives waits refl refl)) in
      let last = further first runs (by_handler (cancels refl refl)) in
      (_, further last runs (by_secrets (secrets_returns at refl refl)), refl, refl, refl)

  handled-CanReturn :
      (listen_and_serve : S → Option S) (p : Program S) (h : Handler) (came : Bool)
      → InOrder p
      → p.ending ≡ none
      → p.secrets_run ≡ selecting
      → p.handler ≢ starting
      → p.handler ≡ h
      → p.signals ≡ came
      → CanReturn listen_and_serve (sigterms_needed h came) p
  unfolding sigterms_needed
  handled-CanReturn l p starting came o runs at set e e' = absurd (set e)
  handled-CanReturn l p listening true o runs at set e e' = signalled-CanReturn l p runs at e e'
  handled-CanReturn l p listening false o runs at set e e' = listening-CanReturn l p runs at e
  handled-CanReturn l p received came o runs at set e e' = received-CanReturn l p runs at e
  handled-CanReturn l p finished came o runs at set e e' =
      cancelled-CanReturn l p runs at (o.when_finished e)

  -- However the steps interleave from the end of `main` on: once `signal.Notify` was called and the
  -- health server has failed, a process that still runs can return from `main` without another
  -- refresh, and without another SIGTERM, unless the handler still waits and the channel is empty:
  -- then with one.
  pub Reach-CanReturn :
      (listen_and_serve : S → Option S) (s : S) (p : Program S)
      → Reach c listen_and_serve (start_controllers c s) p
      → p.ending ≡ none
      → p.secrets_run ≡ selecting
      → p.handler ≢ starting
      → CanReturn listen_and_serve (sigterms_needed p.handler p.signals) p
  Reach-CanReturn l s p reach runs at set =
      handled-CanReturn l p p.handler p.signals (Reach-InOrder l s p reach) runs at set refl refl
