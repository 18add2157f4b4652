-- ===== src/AwsIamRoleController/Settle/Same.antt =====
-- An AWSIAMRole and what `refresh` of awsiamrole_controller.go sees of it, whatever its status and its
-- version are.
use kube_aws_iam_controller.Base.Tests.{
  ◌≡◌, refl, sym, ap, ◌∙◌, Bool, true, false, none, some, inl, inr,
}
use kube_aws_iam_controller.Base.Lists.{List, [], ◌∷◌, Any}
use kube_aws_iam_controller.Base.Int.{ℤ, eqb_ℤ, eqb_ℤ_iff}
use kube_aws_iam_controller.Base.Text.{Text}
use kube_aws_iam_controller.Credentials.Types.{Time}
use kube_aws_iam_controller.Kube.Types.{AwsIamRole, AwsIamRoleStatus, ObjectMeta, OwnerReference}
use kube_aws_iam_controller.Kube.RoleServer.{SameRole}
use kube_aws_iam_controller.SecretFiles.{is_owned_reference}
use kube_aws_iam_controller.SecretFiles.Laws.{References, is_owned_reference-Any}
use kube_aws_iam_controller.AwsIamRoleController.Renewal.{observed, with_status}
use kube_aws_iam_controller.AwsIamRoleController.{role_key}

pub SameRole-key : (x y : AwsIamRole) → SameRole x y → role_key y ≡ role_key x
SameRole-key x y h = rw (h.same_namespace, h.same_name) refl

pub SameRole-refl : (x : AwsIamRole) → SameRole x x
SameRole-refl x = record {
  same_type = refl;
  same_namespace = refl;
  same_name = refl;
  same_uid = refl;
  same_generation = refl;
  same_spec = refl;
}

pub SameRole-trans : (x y z : AwsIamRole) → SameRole x y → SameRole y z → SameRole x z
SameRole-trans x y z h k = record {
  same_type = k.same_type ∙ h.same_type;
  same_namespace = k.same_namespace ∙ h.same_namespace;
  same_name = k.same_name ∙ h.same_name;
  same_uid = k.same_uid ∙ h.same_uid;
  same_generation = k.same_generation ∙ h.same_generation;
  same_spec = k.same_spec ∙ h.same_spec;
}

observed_at : AwsIamRoleStatus → ℤ → Bool
observed_at status generation = elim status.observed_generation [
  | none ↦ false
  | some observed_generation ↦ eqb_ℤ observed_generation generation
]

observed_at-cong :
    (t u : AwsIamRoleStatus) (g h : ℤ) → u ≡ t → h ≡ g → observed_at u h ≡ observed_at t g
observed_at-cong t u g h e e' = rw (e, e') refl

-- A status of the generation.
pub observed_of_status :
    (x y : AwsIamRole)
    → y.status ≡ x.status
    → y.generation ≡ x.generation
    → observed x ≡ true
    → observed y ≡ true
unfolding observed observed_at
observed_of_status x y e e' h =
    observed_at-cong x.status y.status x.generation y.generation e e' ∙ h

pub with_status-observed :
    (role : AwsIamRole) (role_arn : Text) (expiration : Time)
    → observed (with_status role role_arn expiration) ≡ true
unfolding observed with_status
with_status-observed role role_arn expiration = (eqb_ℤ_iff role.generation role.generation).1 refl

Any-References :
    (x y : AwsIamRole) (refs : List OwnerReference)
    → SameRole x y
    → Any (References x.type_meta x.object_meta) refs
    → Any (References y.type_meta y.object_meta) refs
Any-References x y [] h a = absurd a
Any-References x y (ref ∷ refs) h (inl r) = inl (record {
  api_version = r.api_version ∙ ap (λ t. t.api_version) (sym h.same_type);
  kind = r.kind ∙ ap (λ t. t.kind) (sym h.same_type);
  uid = r.uid ∙ sym h.same_uid;
  name = r.name ∙ sym h.same_name;
})
Any-References x y (ref ∷ refs) h (inr a) = inr (Any-References x y refs h a)

pub SameRole-owned :
    (x y : AwsIamRole) (dependent : ObjectMeta)
    → SameRole x y
    → is_owned_reference x.type_meta x.object_meta dependent ≡ true
    → is_owned_reference y.type_meta y.object_meta dependent ≡ true
SameRole-owned x y dependent h owned =
    (is_owned_reference-Any y.type_meta y.object_meta dependent).1 (
      Any-References x y dependent.owner_references h
        ((is_owned_reference-Any x.type_meta x.object_meta dependent).0 owned))
