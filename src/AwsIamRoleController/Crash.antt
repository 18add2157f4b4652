-- ===== src/AwsIamRoleController/Crash.antt =====
-- A panic of the credentials getter ends `refresh` of awsiamrole_controller.go, and with it the
-- program.
use kube_aws_iam_controller.Base.Tests.{◌≡◌, ◌≢◌, refl, inl, inr, Option-cases}
use kube_aws_iam_controller.Base.Lists.{List, [], ◌∷◌, Member}
use kube_aws_iam_controller.Base.Outcome.{panic}
use kube_aws_iam_controller.Base.Text.{Text}
use kube_aws_iam_controller.Base.GoMap.{lookup}
use kube_aws_iam_controller.Base.GoMap.Index.{index_by, lookup-index_by_sound}
use kube_aws_iam_controller.Base.Flow.{
  Flow, next, skip, crash, Step, next_round, for_each, attempt, failed_by, ◌>>=◌,
}
use kube_aws_iam_controller.Credentials.Types.{Duration}
use kube_aws_iam_controller.Credentials.SessionName.{account_id, normalize_role_arn}
use kube_aws_iam_controller.Credentials.SessionName.Arn.{
  head_part, levels_of, TooDeep, normalize_role_arn-panics,
}
use kube_aws_iam_controller.Credentials.Getter.{
  StsCredentialsGetter, role_arn_of, assume, get, as_credentials_getter,
}
use kube_aws_iam_controller.Kube.Types.{Secret, AwsIamRole}
use kube_aws_iam_controller.AwsIamRoleController.Renewal.{
  AwsIamRoleController, session_duration, get_creds, fetch_creds, create_missing, delete_orphan,
}
use kube_aws_iam_controller.AwsIamRoleController.{
  secret_key, role_key, secrets_map, roles_map, sync_role, finish, clean_and_sync, reconcile,
  refresh,
}
use kube_aws_iam_controller.AwsIamRoleController.Listing.{Listed, refresh-Listed}
use kube_aws_iam_controller.AwsIamRoleController.Allowed.{HasNoSecret}
use kube_aws_iam_controller.AwsIamRoleController.Progress.{GathersIn, refresh_secrets-GathersIn}

next_round-crash :
    {S A B : Type 0} (r : Flow A × S) (rest : Step S B)
    → ((s : S) → (rest s).0 ≡ crash)
    → (next_round r rest).0 ≡ crash
unfolding next_round
next_round-crash (next a, s) rest h = h s
next_round-crash (skip, s) rest h = h s
next_round-crash (crash, s) rest h = refl

next_round-crash_first :
    {S A B : Type 0} (r : Flow A × S) (rest : Step S B)
    → r.0 ≡ crash
    → (next_round r rest).0 ≡ crash
unfolding next_round
next_round-crash_first (next a, s) rest h = cc
next_round-crash_first (skip, s) rest h = cc
next_round-crash_first (crash, s) rest h = refl

-- A round that panics wherever it starts ends the loop in a panic.
for_each-crash :
    {S X : Type 0} (x : X) (xs : List X) (body : X → Step S Unit)
    → Member x xs
    → ((s : S) → (body x s).0 ≡ crash)
    → (s : S) → (for_each xs body s).0 ≡ crash
unfolding for_each
for_each-crash x [] body mem h s = absurd mem
for_each-crash x (y ∷ ys) body (inl e) h s =
    next_round-crash_first (body y s) (for_each ys body) (rw (← e) (h s))
for_each-crash x (y ∷ ys) body (inr mem) h s =
    next_round-crash (body y s) (for_each ys body) (for_each-crash x ys body mem h)

module _ {S : Type 0} (c : AwsIamRoleController S) where
  -- The getter panics for the role, whatever the state of the world is.
  abbrev GetterPanics : AwsIamRole → Type 0
  GetterPanics role =
      (s : S) → (c.creds.get role.spec.role_reference (session_duration role.spec) s).0 ≡ panic

  create_missing-crash :
      (role : AwsIamRole) (s : S) → GetterPanics role → (create_missing c role s).0 ≡ crash
  unfolding create_missing fetch_creds get_creds attempt failed_by ◌>>=◌
  create_missing-crash role s panics = rw (panics s) refl

  sync_role-crash :
      (secrets : List Secret) (role : AwsIamRole) (s : S)
      → HasNoSecret secrets role
      → GetterPanics role
      → (sync_role c (secrets_map secrets) role s).0 ≡ crash
  unfolding sync_role secrets_map lookup
  sync_role-crash secrets role s missing panics =
      elim (Option-cases (lookup (role_key role) (index_by secret_key secrets []))) [
        | inl e ↦ rw (e, sync_role) (create_missing-crash role s panics)
        | inr (secret, e) ↦
            elim (lookup-index_by_sound secret_key (role_key role) secrets [] secret e) [
              | inl (listed, same) ↦ absurd (missing secret listed same)
              | inr never ↦ absurd (cc)
            ]
      ]

  finish-crash : (r : Flow (Unit {0}) × S) → r.0 ≡ crash → (finish c r).0 ≡ panic
  unfolding finish
  finish-crash (next _, s) h = cc
  finish-crash (skip, s) h = cc
  finish-crash (crash, s) h = refl

  clean_and_sync-crash :
      (secrets : List Secret) (roles : List AwsIamRole) (r : Flow (List Secret)) (s : S)
      → GathersIn (λ orphans. Unit {0}) r
      → ((s : S) → (for_each roles (sync_role c (secrets_map secrets)) s).0 ≡ crash)
      → (clean_and_sync c (secrets_map secrets) roles (r, s)).0 ≡ panic
  unfolding clean_and_sync
  clean_and_sync-crash secrets roles (next orphans) s g h =
      finish-crash _ (next_round-crash (for_each orphans (delete_orphan c) s) _ h)
  clean_and_sync-crash secrets roles skip s g h = absurd g
  clean_and_sync-crash secrets roles crash s g h = refl

  refresh-panics :
      (s s' : S) (secrets : List Secret) (roles : List AwsIamRole) (role : AwsIamRole)
      → Listed c s s' secrets roles
      → Member role roles
      → HasNoSecret secrets role
      → GetterPanics role
      → (refresh c s).0 ≡ panic
  unfolding reconcile
  refresh-panics s s' secrets roles role listed mem missing panics =
      let gathered =
        refresh_secrets-GathersIn c (roles_map roles) (λ rest orphans. Unit {0})
          (λ x rest orphans role e h. tt) (λ x rest orphans e h. tt) secrets [] s' tt in
      rw (refresh-Listed c s s' secrets roles listed) (
        clean_and_sync-crash secrets roles _ _ gathered (
          for_each-crash role roles (sync_role c (secrets_map secrets)) mem
            (λ s. sync_role-crash secrets role s missing panics)))

get-panics :
    {S : Type 0} (g : StsCredentialsGetter S) (role : Text) (d : Duration) (s : S)
    → normalize_role_arn (role_arn_of g role) g.base_role_arn_prefix ≡ panic
    → (get g role d s).0 ≡ panic
unfolding get assume
get-panics g role d s e = rw e refl

-- With the getter of the program, one listed role without a secret whose ARN has too many levels
-- for a session name makes `refresh` panic, whatever the other roles and secrets are.
pub refresh-panics_on_deep_role :
    {S : Type 0} (c : AwsIamRoleController S) (g : StsCredentialsGetter S) (s s' : S)
    (secrets : List Secret) (roles : List AwsIamRole) (role : AwsIamRole)
    → c.creds ≡ as_credentials_getter g
    → Listed c s s' secrets roles
    → Member role roles
    → HasNoSecret secrets role
    → levels_of (role_arn_of g role.spec.role_reference) ≢ []
    → TooDeep
        (account_id (head_part (role_arn_of g role.spec.role_reference)) g.base_role_arn_prefix)
        (levels_of (role_arn_of g role.spec.role_reference))
    → (refresh c s).0 ≡ panic
unfolding as_credentials_getter
refresh-panics_on_deep_role c g s s' secrets roles role made listed mem missing slash deep =
    let arn = role_arn_of g role.spec.role_reference in
    let unnamed = (normalize_role_arn-panics arn g.base_role_arn_prefix).1 (slash, deep) in
    refresh-panics c s s' secrets roles role listed mem missing
      λ s. rw made (get-panics g role.spec.role_reference (session_duration role.spec) s unnamed)
