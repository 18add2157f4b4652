-- ===== src/AwsIamRoleController/Allowed.antt =====
-- What `refresh` of awsiamrole_controller.go may send, for the secrets and roles that were listed.
pub mod Refresh
use kube_aws_iam_controller.Base.Tests.{
  ◌≡◌, ◌≢◌, refl, sym, ap, false, Option, none, some, inl, inr, Bool-cases,
}
use kube_aws_iam_controller.Base.Lists.{List, [], All, Member}
use kube_aws_iam_controller.Base.Outcome.{ok}
use kube_aws_iam_controller.Base.Text.{Text}
use kube_aws_iam_controller.Base.GoMap.{lookup}
use kube_aws_iam_controller.Base.GoMap.Index.{
  index_by, DistinctKeys, lookup-index_by_sound, lookup-index_by_self,
}
use kube_aws_iam_controller.Credentials.Types.{Time}
use kube_aws_iam_controller.Kube.Types.{Secret, SecretData, AwsIamRole}
use kube_aws_iam_controller.Kube.Recorded.{
  Sent, updated, created, deleted, status_updated, event_recorded, asked,
}
use kube_aws_iam_controller.SecretFiles.{is_owned_reference}
use kube_aws_iam_controller.AwsIamRoleController.Renewal.{
  session_duration, renewed_secret, with_status, new_secret,
}
use kube_aws_iam_controller.AwsIamRoleController.{secret_key, role_key, roles_map, owning, owner_of}
use kube_aws_iam_controller.AwsIamRoleController.Calls.{RoleAllowed}

-- No listed role of the secret's name and namespace owns it.
abbrev pub IsOrphan : List AwsIamRole → Secret → Type 0
IsOrphan roles secret =
    (role : AwsIamRole)
    → Member role roles
    → role_key role ≡ secret_key secret
    → is_owned_reference role.type_meta role.object_meta secret.object_meta ≡ false

-- No listed secret has the role's name and namespace.
abbrev pub HasNoSecret : List Secret → AwsIamRole → Type 0
HasNoSecret secrets role =
    (secret : Secret) → Member secret secrets → secret_key secret ≢ role_key role

module _ (secrets : List Secret) (roles : List AwsIamRole) where
  -- Only orphans are deleted; a secret is updated for the role of its name and namespace, with the
  -- labels and the generation of that role; a secret is created for a role that has none; the status
  -- that is written is of the role's generation; credentials are asked for a listed role, as long
  -- as it says; events are about listed roles.
  abbrev pub Allowed : Sent → Type 0
  Allowed (deleted namespace name) =
      (secret : Secret) × Member secret secrets
      × (namespace ≡ secret.namespace)
      × (name ≡ secret.name)
      × IsOrphan roles secret
  Allowed (updated namespace written) =
      (role : AwsIamRole) × (secret : Secret) × (secret_data : SecretData) × Member role roles
      × Member secret secrets
      × (role_key role ≡ secret_key secret)
      × (namespace ≡ secret.namespace)
      × (written ≡ renewed_secret role secret secret_data)
  Allowed (created namespace written) =
      (role : AwsIamRole) × (secret_data : SecretData) × Member role roles
      × HasNoSecret secrets role
      × (namespace ≡ role.namespace)
      × (written ≡ new_secret role secret_data)
  Allowed (status_updated namespace written) =
      (role : AwsIamRole) × (role_arn : Text) × (expiration : Time) × Member role roles
      × (namespace ≡ role.namespace)
      × (written ≡ with_status role role_arn expiration)
  Allowed (event_recorded role event) = Member role roles
  Allowed (asked role_reference duration) =
      (role : AwsIamRole) × Member role roles
      × (role_reference ≡ role.spec.role_reference)
      × (duration ≡ session_duration role.spec)

  abbrev pub Log : List Sent → Type 0
  Log = All Allowed

  role-allowed : (role : AwsIamRole) → Member role roles → RoleAllowed Log role
  role-allowed role mem = record {
    ask = λ log h. ((role, mem, refl, refl), h);
    tell = λ e log h. (mem, h);
    observe_as = λ role_arn expiration log h. ((role, role_arn, expiration, mem, refl, refl), h);
  }

-- What `owner_of` finds is a listed role of the secret's key.
owning-some :
    (found : Option AwsIamRole) (secret : Secret) (role : AwsIamRole)
    → owning found secret ≡ some role
    → found ≡ some role
unfolding owning
owning-some none secret role h = cc
owning-some (some r) secret role h =
    elim (Bool-cases (is_owned_reference r.type_meta r.object_meta secret.object_meta)) [
      | inl e ↦ rw e at h
      | inr e ↦ cc (rw e at h)
    ]

owning-none :
    (role : AwsIamRole) (secret : Secret)
    → owning (some role) secret ≡ none
    → is_owned_reference role.type_meta role.object_meta secret.object_meta ≡ false
unfolding owning
owning-none role secret h =
    elim (Bool-cases (is_owned_reference role.type_meta role.object_meta secret.object_meta)) [
      | inl e ↦ cc (rw e at h)
      | inr e ↦ e
    ]

owner_of-some :
    (roles : List AwsIamRole) (secret : Secret) (role : AwsIamRole)
    → owner_of (roles_map roles) secret ≡ some role
    → Member role roles × (role_key role ≡ secret_key secret)
unfolding owner_of roles_map lookup
owner_of-some roles secret role h =
    let found =
      owning-some (lookup (secret_key secret) (index_by role_key roles [])) secret role h in
    elim (lookup-index_by_sound role_key (secret_key secret) roles [] role found) [
      | inl r ↦ r
      | inr e ↦ cc e
    ]

owner_of-none :
    (roles : List AwsIamRole) (secret : Secret)
    → DistinctKeys role_key roles
    → owner_of (roles_map roles) secret ≡ none
    → IsOrphan roles secret
unfolding owner_of roles_map
owner_of-none roles secret d h role mem same =
    owning-none role secret (rw (sym same, lookup-index_by_self role_key roles [] role d mem) at h)
