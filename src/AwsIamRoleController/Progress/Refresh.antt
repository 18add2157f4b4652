-- ===== src/AwsIamRoleController/Progress/Refresh.antt =====
-- The two promises of `refresh` of awsiamrole_controller.go.
use kube_aws_iam_controller.Base.Tests.{◌≡◌, refl, ap, none, some, inl, inr, ◌⊎◌, Option-cases}
use kube_aws_iam_controller.Base.Lists.{List, [], ◌∷◌, ◌++◌, Member, Member-append, Member-last}
use kube_aws_iam_controller.Base.Outcome.{panic}
use kube_aws_iam_controller.Base.GoMap.{GoMap, lookup}
use kube_aws_iam_controller.Base.GoMap.Index.{index_by, lookup-index_by_sound}
use kube_aws_iam_controller.Base.Flow.{Flow, next, skip, crash, next_round, for_each}
use kube_aws_iam_controller.Base.Flow.Reaches.{
  next_round-reached, next_round-later, for_each-reached,
}
use kube_aws_iam_controller.Base.Flow.Keeps.{Keeps, Keeps-for_each, attempt_from, EffectKeeps-id}
use kube_aws_iam_controller.Kube.Types.{Secret, AwsIamRole}
use kube_aws_iam_controller.Kube.Recorded.{
  Sent, deleted, asked, World, recorded, recorded_creds, record_event-keeps,
}
use kube_aws_iam_controller.AwsIamRoleController.Renewal.{
  AwsIamRoleController, session_duration, get_creds, fetch_creds, delete_orphan,
}
use kube_aws_iam_controller.AwsIamRoleController.{
  secret_key, role_key, secrets_map, roles_map, owning, owner_of, sync_role, finish, clean_and_sync,
  reconcile, refresh,
}
use kube_aws_iam_controller.AwsIamRoleController.Calls.{
  with_record, delete_orphan-Keeps, sync_existing-Keeps, create_missing-Keeps, create_missing_from,
}
use kube_aws_iam_controller.AwsIamRoleController.Listing.{Listed, refresh-Listed}
use kube_aws_iam_controller.AwsIamRoleController.Allowed.{HasNoSecret}
use kube_aws_iam_controller.AwsIamRoleController.Allowed.Refresh.{Listed-with_record}
use kube_aws_iam_controller.AwsIamRoleController.Allowed.{IsOrphan}
use kube_aws_iam_controller.AwsIamRoleController.Progress.{
  Reached, Made, adds, role_adds, GathersIn, refresh_secrets-GathersIn,
}

-- The secret is among the orphans, or its round is still to come.
abbrev Due : Secret → List Secret → List Secret → Type 0
Due secret rest orphans = Member secret orphans ⊎ Member secret rest

module _ (by_key : GoMap AwsIamRole) (secret : Secret)
    (unowned : owner_of by_key secret ≡ none) where
  owned-Due :
      (x : Secret) (rest orphans : List Secret) (role : AwsIamRole)
      → owner_of by_key x ≡ some role
      → Due secret (x ∷ rest) orphans
      → Due secret rest orphans
  owned-Due x rest orphans role e (inl mem) = inl mem
  owned-Due x rest orphans role e (inr (inl same)) = absurd (cc (ap (owner_of by_key) same))
  owned-Due x rest orphans role e (inr (inr mem)) = inr mem

  orphaned-Due :
      (x : Secret) (rest orphans : List Secret)
      → owner_of by_key x ≡ none
      → Due secret (x ∷ rest) orphans
      → Due secret rest (orphans ++ x ∷ [])
  orphaned-Due x rest orphans e (inl mem) = inl (Member-append secret orphans (x ∷ []) mem)
  orphaned-Due x rest orphans e (inr (inl same)) = inl (rw same (Member-last x orphans))
  orphaned-Due x rest orphans e (inr (inr mem)) = inr mem

module _ {S : Type 0} (c : AwsIamRoleController S) where
  fetch_creds-asks :
      (role : AwsIamRole) (w : World S)
      → Made
          (asked role.spec.role_reference (session_duration role.spec))
          (fetch_creds (with_record c) role w).1
  unfolding fetch_creds get_creds recorded_creds
  fetch_creds-asks role w =
      let sent = asked role.spec.role_reference (session_duration role.spec) in
      attempt_from {P = Made sent} _ _ w (inl refl)
        (λ e. record_event-keeps c.client role _ (adds _))

  delete_orphan-deletes :
      (secret : Secret) (w : World S)
      → Made (deleted secret.namespace secret.name) (delete_orphan (with_record c) secret w).1
  unfolding delete_orphan recorded
  delete_orphan-deletes secret w =
      attempt_from {P = Made (deleted secret.namespace secret.name)} _ _ w (inl refl)
        (λ e. EffectKeeps-id)

  finish-Reached :
      (sent : Sent) (r : Flow (Unit {0}) × World S)
      → Reached sent r
      → ((finish (with_record c) r).0 ≡ panic) ⊎ Member sent (finish (with_record c) r).1.1
  unfolding finish
  finish-Reached sent (next _, w) (inl e) = cc
  finish-Reached sent (next _, w) (inr h) = inr h
  finish-Reached sent (skip, w) (inl e) = cc
  finish-Reached sent (skip, w) (inr h) = inr h
  finish-Reached sent (crash, w) h = inl refl

  module _ (secrets : List Secret) where
    -- A role without a secret: its round asks for credentials.
    sync_role-asks :
        (role : AwsIamRole) (w : World S)
        → HasNoSecret secrets role
        → Made
            (asked role.spec.role_reference (session_duration role.spec))
            (sync_role (with_record c) (secrets_map secrets) role w).1
    unfolding sync_role secrets_map lookup
    sync_role-asks role w missing =
        let sent = asked role.spec.role_reference (session_duration role.spec) in
        elim (Option-cases (lookup (role_key role) (index_by secret_key secrets []))) [
          | inl e ↦
              rw (e, sync_role)
                (create_missing_from c {P = Member sent} role (role_adds sent role) (λ d. adds _) w
                  (fetch_creds-asks role w))
          | inr (secret, e) ↦
              elim (lookup-index_by_sound secret_key (role_key role) secrets [] secret e) [
                | inl (listed, same) ↦ absurd (missing secret listed same)
                | inr never ↦ absurd (cc)
              ]
        ]

    sync_role-Made :
        (sent : Sent) (role : AwsIamRole)
        → Keeps (Made sent) (sync_role (with_record c) (secrets_map secrets) role)
    unfolding sync_role
    sync_role-Made sent role = elim (Option-cases (lookup (role_key role) (secrets_map secrets))) [
      | inl e ↦ rw (e, sync_role) (create_missing-Keeps c role (role_adds sent role) (λ d. adds _))
      | inr (secret, e) ↦
          rw (e, sync_role) (sync_existing-Keeps c role (role_adds sent role) secret (λ d. adds _))
    ]

  -- The loops behind the first, whatever it has gathered.
  clean_and_sync-Reached :
      (sent : Sent) (secrets : List Secret) (roles : List AwsIamRole) (Q : List Secret → Type 0)
      (r : Flow (List Secret)) (w : World S)
      → GathersIn Q r
      → ((orphans : List Secret)
          → Q orphans
          → Reached sent (
              next_round
                (for_each orphans (delete_orphan (with_record c)) w)
                (for_each roles (sync_role (with_record c) (secrets_map secrets)))))
      → let e = clean_and_sync (with_record c) (secrets_map secrets) roles (r, w) in
        (e.0 ≡ panic) ⊎ Member sent e.1.1
  unfolding clean_and_sync
  clean_and_sync-Reached sent secrets roles Q (next orphans) w g h =
      finish-Reached sent _ (h orphans g)
  clean_and_sync-Reached sent secrets roles Q skip w g h = absurd g
  clean_and_sync-Reached sent secrets roles Q crash w g h = inl refl

  -- Unless `refresh` panics, it asks for credentials for every listed role of whose name and
  -- namespace no secret was listed, whatever fails before.
  pub refresh-asks :
      (s s' : S) (secrets : List Secret) (roles : List AwsIamRole) (role : AwsIamRole)
      → Listed c s s' secrets roles
      → Member role roles
      → HasNoSecret secrets role
      → let r = refresh (with_record c) (s, []) in
        (r.0 ≡ panic) ⊎ Member (asked role.spec.role_reference (session_duration role.spec)) r.1.1
  unfolding reconcile
  refresh-asks s s' secrets roles role listed mem missing =
      let l = Listed-with_record c s s' secrets roles listed [] in
      let sent = asked role.spec.role_reference (session_duration role.spec) in
      let gathered =
        refresh_secrets-GathersIn (with_record c) (roles_map roles) (λ rest orphans. Unit {0})
          (λ x rest orphans role e h. tt) (λ x rest orphans e h. tt) secrets [] (s', []) tt in
      rw (refresh-Listed (with_record c) (s, []) (s', []) secrets roles l) (
        clean_and_sync-Reached sent secrets roles (λ orphans. Unit {0}) _ _ gathered
          λ orphans q. next_round-later (Made sent) _ _ (
            for_each-reached (Made sent) role roles _ mem
              (λ w. inr (sync_role-asks secrets role w missing)) (sync_role-Made secrets sent)))

  owner_of-IsOrphan :
      (roles : List AwsIamRole) (secret : Secret)
      → IsOrphan roles secret
      → owner_of (roles_map roles) secret ≡ none
  unfolding owner_of owning roles_map lookup
  owner_of-IsOrphan roles secret orphan =
      elim (Option-cases (lookup (secret_key secret) (index_by role_key roles []))) [
        | inl e ↦ rw (e, owning) refl
        | inr (role, e) ↦
            elim (lookup-index_by_sound role_key (secret_key secret) roles [] role e) [
              | inl (listed, same) ↦ rw (e, owning, orphan role listed same) refl
              | inr never ↦ absurd (cc)
            ]
      ]

  -- Unless `refresh` panics, it deletes every listed secret that no listed role of its name and
  -- namespace owns.
  pub refresh-deletes :
      (s s' : S) (secrets : List Secret) (roles : List AwsIamRole) (secret : Secret)
      → Listed c s s' secrets roles
      → Member secret secrets
      → IsOrphan roles secret
      → let r = refresh (with_record c) (s, []) in
        (r.0 ≡ panic) ⊎ Member (deleted secret.namespace secret.name) r.1.1
  unfolding reconcile
  refresh-deletes s s' secrets roles secret listed mem orphan =
      let l = Listed-with_record c s s' secrets roles listed [] in
      let sent = deleted secret.namespace secret.name in
      let unowned = owner_of-IsOrphan roles secret orphan in
      let gathered =
        refresh_secrets-GathersIn (with_record c) (roles_map roles) (Due secret)
          (owned-Due (roles_map roles) secret unowned)
          (orphaned-Due (roles_map roles) secret unowned) secrets [] (s', []) (inr mem) in
      rw (refresh-Listed (with_record c) (s, []) (s', []) secrets roles l) (
        clean_and_sync-Reached sent secrets roles (Due secret []) _ _ gathered λ orphans q.
          next_round-reached (Made sent) _ _
            (for_each-reached (Made sent) secret orphans _
              (elim q [ inl found ↦ found | inr never ↦ absurd never ])
              (λ w. inr (delete_orphan-deletes secret w))
              (λ other. delete_orphan-Keeps c other (adds _)) _)
            (Keeps-for_each roles _ (λ role _. sync_role-Made secrets sent role)))
