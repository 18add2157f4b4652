-- ===== src/Examples/Crash.antt =====
-- A role reference with 27 levels, and the getter of the program.
use kube_aws_iam_controller.Base.Tests.{◌≡◌, ◌≢◌, refl, inl, inr, arith}
use kube_aws_iam_controller.Base.Lists.{[], ◌∷◌}
use kube_aws_iam_controller.Base.Outcome.{ok, panic}
use kube_aws_iam_controller.Base.Text.{
  split, has_prefix, strip_prefix, trim_prefix, trim_suffix, text_eq,
}
use kube_aws_iam_controller.Credentials.SessionName.{account_id}
use kube_aws_iam_controller.Credentials.SessionName.Arn.{head_part, levels_of, TooDeep}
use kube_aws_iam_controller.Credentials.Getter.{role_arn_of, as_credentials_getter}
use kube_aws_iam_controller.Kube.Types.{AwsIamRole}
use kube_aws_iam_controller.AwsIamRoleController.Renewal.{AwsIamRoleController}
use kube_aws_iam_controller.AwsIamRoleController.{refresh}
use kube_aws_iam_controller.AwsIamRoleController.Listing.{Listed}
use kube_aws_iam_controller.AwsIamRoleController.Allowed.{HasNoSecret}
use kube_aws_iam_controller.AwsIamRoleController.Crash.{refresh-panics_on_deep_role}
use kube_aws_iam_controller.Examples.{some_getter, deep_arn}
use kube_aws_iam_controller.Examples.Controllers.{meta, some_role, some_secret, roles_controller}
use kube_aws_iam_controller.Base.Text.{codes}

abbrev deep_role : AwsIamRole
deep_role = record some_role {
  object_meta = meta (codes "deep") [];
  spec = record some_role.spec { role_reference = deep_arn };
}

abbrev deep_controller : AwsIamRoleController (Unit {0})
deep_controller = record (roles_controller (ok (some_role ∷ deep_role ∷ []))) {
  creds = as_credentials_getter some_getter;
}

deep-Listed : Listed deep_controller tt tt (some_secret ∷ []) (some_role ∷ deep_role ∷ [])
deep-Listed = record { between = tt; secrets_listed = refl; roles_listed = refl }

deep_role-HasNoSecret : HasNoSecret (some_secret ∷ []) deep_role
deep_role-HasNoSecret secret (inl e) = rw e (λ same. cc)
deep_role-HasNoSecret secret (inr never) = absurd never

deep-levels_of : levels_of (role_arn_of some_getter deep_arn) ≢ []
unfolding role_arn_of has_prefix strip_prefix split
deep-levels_of h = cc

deep-TooDeep :
    TooDeep
      (account_id (head_part (role_arn_of some_getter deep_arn)) some_getter.base_role_arn_prefix)
      (levels_of (role_arn_of some_getter deep_arn))
unfolding role_arn_of has_prefix strip_prefix split account_id trim_prefix trim_suffix text_eq
deep-TooDeep = omega arith

refresh-panics_on_deep_role_example : (refresh deep_controller tt).0 ≡ panic
refresh-panics_on_deep_role_example =
    refresh-panics_on_deep_role deep_controller some_getter tt tt (some_secret ∷ [])
      (some_role ∷ deep_role ∷ []) deep_role refl deep-Listed (inr (inl refl)) deep_role-HasNoSecret
      deep-levels_of deep-TooDeep
