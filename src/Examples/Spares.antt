-- ===== src/Examples/Spares.antt =====
-- The theorem on the two controllers side by side, with a secret of the AWSIAMRole controller and one that
-- is no longer in use.
use kube_aws_iam_controller.Base.Tests.{◌≡◌, refl, inl, inr}
use kube_aws_iam_controller.Base.Lists.{[], ◌∷◌, All, Member}
use kube_aws_iam_controller.Base.Outcome.{ok}
use kube_aws_iam_controller.Base.Text.{codes}
use kube_aws_iam_controller.Kube.Types.{Secret}
use kube_aws_iam_controller.Kube.Server.{SameKey, IsStored}
use kube_aws_iam_controller.RoleStore.History.{adds, run-StoreValid}
use kube_aws_iam_controller.AwsIamRoleController.Renewal.{new_secret}
use kube_aws_iam_controller.SecretsController.Renewal.{SecretsController}
use kube_aws_iam_controller.SecretsController.{refresh}
use kube_aws_iam_controller.SecretsController.Calls.{with_record}
use kube_aws_iam_controller.StartUp.Spares.{Spares, refresh-Spares}
use kube_aws_iam_controller.Examples.Controllers.{some_role, free_secret, secrets_controller}

abbrev role_secret : Secret
role_secret = new_secret some_role []

abbrev both_listed : SecretsController (Unit {0})
both_listed = record secrets_controller {
  client = record secrets_controller.client {
    list_secrets = λ namespace labels s. (ok (role_secret ∷ free_secret ∷ []), s);
  };
}

role_secret-IsStored : IsStored (new_secret some_role []) role_secret
role_secret-IsStored = record {
  same_namespace = refl;
  same_name = refl;
  same_labels = refl;
  same_owners = refl;
  same_data = refl;
}

role_secret_only :
    (y : Secret)
    → Member y (role_secret ∷ free_secret ∷ [])
    → SameKey role_secret y
    → y ≡ role_secret
unfolding new_secret
role_secret_only y (inl e) k = e
role_secret_only y (inr (inl e)) k =
    let different : codes "app" ≡ free_secret.name = rw e at k.same_name in absurd cc
role_secret_only y (inr (inr never)) k = absurd never

refresh-Spares_example : All (Spares role_secret) (refresh (with_record both_listed) (tt, [])).1.1
refresh-Spares_example =
    refresh-Spares both_listed tt tt (role_secret ∷ free_secret ∷ []) some_role [] role_secret refl
      (run-StoreValid (adds (codes "reader") (codes "kube-system") (codes "p") ∷ []))
      role_secret-IsStored role_secret_only
