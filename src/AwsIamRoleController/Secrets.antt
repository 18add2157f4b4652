-- ===== src/AwsIamRoleController/Secrets.antt =====
-- What the next `refresh` of awsiamrole_controller.go sees in a secret that the controller wrote.
use kube_aws_iam_controller.Base.Tests.{◌≡◌, refl, true, some, inl, ◌∙◌}
use kube_aws_iam_controller.Base.Outcome.{ok}
use kube_aws_iam_controller.Base.Text.{Text, text_eq}
use kube_aws_iam_controller.Base.GoMap.{GoMap, lookup, UniqueKeys}
use kube_aws_iam_controller.Decimal.RoundTrip.{IsInt64}
use kube_aws_iam_controller.Kube.Types.{Secret, SecretData, AwsIamRole}
use kube_aws_iam_controller.SecretFiles.{is_owned_reference, get_generation, merge_labels}
use kube_aws_iam_controller.SecretFiles.Laws.{
  lookup-merge_labels, is_owned_reference-Any, get_generation-with_generation,
}
use kube_aws_iam_controller.AwsIamRoleController.Renewal.{
  aws_iam_role_owner_labels, renewed_secret, new_secret,
}
use kube_aws_iam_controller.AwsIamRoleController.{secret_key, role_key}

-- The label selector of the controller finds the object: it has the labels of its owner.
abbrev pub IsSelected : GoMap Text → Type 0
IsSelected labels =
    (k v : Text) → lookup k aws_iam_role_owner_labels ≡ some v → lookup k labels ≡ some v

-- The secret is listed, found under the key of the role, owned by it and of its generation.
abbrev pub IsCurrent : AwsIamRole → Secret → Type 0
IsCurrent role secret =
    IsSelected secret.labels
    × (secret_key secret ≡ role_key role)
    × (is_owned_reference role.type_meta role.object_meta secret.object_meta ≡ true)
    × (get_generation secret.data_map ≡ ok role.generation)

merged-IsSelected :
    (base : GoMap Text) → UniqueKeys base → IsSelected (merge_labels base aws_iam_role_owner_labels)
merged-IsSelected base u k v e =
    let owners : UniqueKeys aws_iam_role_owner_labels =
      unfold lookup text_eq in (refl, (refl, tt)) in
    lookup-merge_labels base aws_iam_role_owner_labels k u owners ∙ rw e refl

-- A secret that the controller creates for a role is one that the next refresh lists, takes for the
-- secret of the role, and finds up to date, if the labels of the role have unique keys and its
-- generation is an int64.
pub new_secret-IsCurrent :
    (role : AwsIamRole) (secret_data : SecretData)
    → UniqueKeys role.labels
    → IsInt64 role.generation
    → IsCurrent role (new_secret role secret_data)
unfolding new_secret
new_secret-IsCurrent role secret_data u fits = (
  merged-IsSelected role.labels u,
  refl,
  (is_owned_reference-Any role.type_meta role.object_meta _).1
      (inl (record { api_version = refl; kind = refl; uid = refl; name = refl })),
  get_generation-with_generation role.generation secret_data fits,
)

-- A secret of the role's name and namespace that the role owns is still so when the controller has
-- given it new credentials, and then it is up to date and listed, if the labels of the role have
-- unique keys and its generation is an int64.
pub renewed_secret-IsCurrent :
    (role : AwsIamRole) (secret : Secret) (secret_data : SecretData)
    → UniqueKeys role.labels
    → IsInt64 role.generation
    → secret_key secret ≡ role_key role
    → is_owned_reference role.type_meta role.object_meta secret.object_meta ≡ true
    → IsCurrent role (renewed_secret role secret secret_data)
unfolding renewed_secret is_owned_reference
renewed_secret-IsCurrent role secret secret_data u fits same owned = (
  merged-IsSelected role.labels u,
  same,
  owned,
  get_generation-with_generation role.generation secret_data fits,
)
