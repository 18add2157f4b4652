-- ===== src/AwsIamRoleController.antt =====
-- awsiamrole_controller.go: the controller that keeps a secret for each AWSIAMRole. `Renewal` has
-- what is done for one object, this file the loops of `refresh`, `Loop` the loop of `Run`.
pub mod Renewal
pub mod Calls
pub mod Listing
pub mod Settle
pub mod Allowed
pub mod Secrets
pub mod Freshness
pub mod Idle
pub mod Loop
pub mod Progress
pub mod Crash
use kube_aws_iam_controller.Base.Tests.{Option, none, some, if◌then◌else◌}
use kube_aws_iam_controller.Base.Lists.{List, [], ◌∷◌, ◌++◌}
use kube_aws_iam_controller.Base.Outcome.{Outcome, ok, err, panic}
use kube_aws_iam_controller.Base.Text.{Text, codes}
use kube_aws_iam_controller.Base.GoMap.{GoMap, lookup}
use kube_aws_iam_controller.Base.GoMap.Index.{index_by}
use kube_aws_iam_controller.Base.Flow.{Flow, next, skip, crash, Call, Step, for_each, next_round}
use kube_aws_iam_controller.Kube.Types.{Secret, AwsIamRole}
use kube_aws_iam_controller.SecretFiles.{is_owned_reference}
use kube_aws_iam_controller.AwsIamRoleController.Renewal.{
  AwsIamRoleController, aws_iam_role_owner_labels, refresh_secret, delete_orphan, sync_existing,
  create_missing,
}

-- `namespace + "/" + name`
abbrev pub object_key : Text → Text → Text
object_key namespace name = namespace ++ codes "/" ++ name

abbrev pub secret_key : Secret → Text
secret_key secret = object_key secret.namespace secret.name

abbrev pub role_key : AwsIamRole → Text
role_key role = object_key role.namespace role.name

unfoldable pub secrets_map : List Secret → GoMap Secret
secrets_map secrets = index_by secret_key secrets []

unfoldable pub roles_map : List AwsIamRole → GoMap AwsIamRole
roles_map roles = index_by role_key roles []

-- The role that was found under the key of a secret, if it owns the secret.
owning : Option AwsIamRole → Secret → Option AwsIamRole
owning none secret = none
owning (some role) secret =
    if is_owned_reference role.type_meta role.object_meta secret.object_meta
    then some role
    else none

unfoldable pub owner_of : GoMap AwsIamRole → Secret → Option AwsIamRole
unfolding owning
owner_of by_key secret = owning (lookup (secret_key secret) by_key) secret

module _ {S : Type 0} (c : AwsIamRoleController S) where
  -- The first loop, with the orphans found so far.
  unfoldable pub refresh_secrets :
      GoMap AwsIamRole → List Secret → List Secret → Step S (List Secret)
  refresh_secrets by_key [] orphan_secrets s = (next orphan_secrets, s)
  refresh_secrets by_key (secret ∷ secrets) orphan_secrets s = elim (owner_of by_key secret) [
    | none ↦ refresh_secrets by_key secrets (orphan_secrets ++ secret ∷ []) s
    | some role ↦
        next_round (refresh_secret c role secret s) (refresh_secrets by_key secrets orphan_secrets)
  ]

  -- One round of the last loop.
  unfoldable pub sync_role : GoMap Secret → AwsIamRole → Step S (Unit {0})
  sync_role by_key role = elim (lookup (role_key role) by_key) [
    | none ↦ create_missing c role
    | some secret ↦ sync_existing c role secret
  ]

  finish : Flow (Unit {0}) × S → Outcome (Unit {0}) × S
  finish (next _, s) = (ok tt, s)
  finish (skip, s) = (ok tt, s)
  finish (crash, s) = (panic, s)

  -- The two loops behind the first.
  unfoldable pub clean_and_sync :
      GoMap Secret → List AwsIamRole → Flow (List Secret) × S → Outcome (Unit {0}) × S
  unfolding finish
  clean_and_sync by_key roles (next orphan_secrets, s) =
      finish (
        next_round (for_each orphan_secrets (delete_orphan c) s)
          (for_each roles (sync_role by_key)))
  clean_and_sync by_key roles (skip, s) = (ok tt, s)
  clean_and_sync by_key roles (crash, s) = (panic, s)

  unfoldable pub reconcile : List Secret → List AwsIamRole → Call S (Unit {0})
  reconcile secrets roles s =
      clean_and_sync (secrets_map secrets) roles (refresh_secrets (roles_map roles) secrets [] s)

  with_roles : List Secret → Outcome (List AwsIamRole) → Call S (Unit {0})
  with_roles secrets (ok roles) s = reconcile secrets roles s
  with_roles secrets (err e) s = (err e, s)
  with_roles secrets panic s = (panic, s)

  with_secrets : Outcome (List Secret) → Call S (Unit {0})
  unfolding with_roles
  with_secrets (ok secrets) s =
      let (r, s') = c.client.list_aws_iam_roles c.namespace s in with_roles secrets r s'
  with_secrets (err e) s = (err e, s)
  with_secrets panic s = (panic, s)

  unfoldable pub refresh : Call S (Unit {0})
  unfolding with_secrets
  refresh s =
      let (r, s') = c.client.list_secrets c.namespace aws_iam_role_owner_labels s in
      with_secrets r s'
