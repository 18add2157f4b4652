-- ===== src/AwsIamRoleController/Listing.antt =====
-- The two lists at the start of `refresh` of awsiamrole_controller.go.
use kube_aws_iam_controller.Base.Tests.{◌≡◌, ap, ◌∙◌}
use kube_aws_iam_controller.Base.Lists.{List}
use kube_aws_iam_controller.Base.Outcome.{ok, err}
use kube_aws_iam_controller.Base.Text.{Text}
use kube_aws_iam_controller.Kube.Types.{Secret, AwsIamRole}
use kube_aws_iam_controller.AwsIamRoleController.Renewal.{
  AwsIamRoleController, aws_iam_role_owner_labels,
}
use kube_aws_iam_controller.AwsIamRoleController.{reconcile, with_roles, with_secrets, refresh}

module _ {S : Type 0} (c : AwsIamRoleController S) where
  -- The API server lists these secrets and roles.
  pub record Listed (s s' : S) (secrets : List Secret) (roles : List AwsIamRole) : Type 0 where
    pub between : S
    pub secrets_listed :
        c.client.list_secrets c.namespace aws_iam_role_owner_labels s ≡ (ok secrets, between)
    pub roles_listed : c.client.list_aws_iam_roles c.namespace between ≡ (ok roles, s')

  -- One of the two lists fails.
  pub data ListFails (s s' : S) (e : Text) : Type 0 where
    secrets_fail :
        c.client.list_secrets c.namespace aws_iam_role_owner_labels s ≡ (err e, s')
        → ListFails s s' e
    roles_fail :
        (secrets : List Secret) (between : S)
        → c.client.list_secrets c.namespace aws_iam_role_owner_labels s ≡ (ok secrets, between)
        → c.client.list_aws_iam_roles c.namespace between ≡ (err e, s')
        → ListFails s s' e

  pub refresh-Listed :
      (s s' : S) (secrets : List Secret) (roles : List AwsIamRole)
      → Listed s s' secrets roles
      → refresh c s ≡ reconcile c secrets roles s'
  unfolding refresh with_secrets with_roles
  refresh-Listed s s' secrets roles l =
      ap (λ p. with_secrets c p.0 p.1) l.secrets_listed
      ∙ ap (λ p. with_roles c secrets p.0 p.1) l.roles_listed

  -- If a list fails, `refresh` returns its error and does nothing more.
  pub refresh-ListFails : (s s' : S) (e : Text) → ListFails s s' e → refresh c s ≡ (err e, s')
  unfolding refresh with_secrets with_roles
  refresh-ListFails s s' e (secrets_fail listed) = ap (λ p. with_secrets c p.0 p.1) listed
  refresh-ListFails s s' e (roles_fail secrets between listed fails) =
      ap (λ p. with_secrets c p.0 p.1) listed ∙ ap (λ p. with_roles c secrets p.0 p.1) fails
