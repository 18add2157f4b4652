-- ===== src/StartUp/Spares.antt =====
-- The two controllers that `main` runs side by side: the secrets controller lists by a label that the
-- secrets of the AWSIAMRole controller have too.
use kube_aws_iam_controller.Base.Tests.{◌≡◌, refl, sym, ap, ◌∙◌, true}
use kube_aws_iam_controller.Base.Lists.{List, [], ◌∷◌, All, Member}
use kube_aws_iam_controller.Base.Outcome.{ok}
use kube_aws_iam_controller.Kube.Types.{Secret, SecretData, AwsIamRole}
use kube_aws_iam_controller.Kube.Recorded.{
  Sent, updated, created, deleted, status_updated, event_recorded, asked,
}
use kube_aws_iam_controller.Kube.Server.{SameKey, IsStored}
use kube_aws_iam_controller.RoleStore.Invariant.{StoreValid}
use kube_aws_iam_controller.AwsIamRoleController.Renewal.{new_secret}
use kube_aws_iam_controller.SecretsController.Renewal.{
  SecretsController, owner_labels, has_owner, with_data,
}
use kube_aws_iam_controller.SecretsController.{refresh}
use kube_aws_iam_controller.SecretsController.Calls.{with_record}
use kube_aws_iam_controller.SecretsController.Allowed.{Allowed}
use kube_aws_iam_controller.SecretsController.Allowed.Refresh.{refresh-Allowed_by_store}

-- The call does not change or delete the secret; a creation is refused where there is one.
abbrev pub Spares : Secret → Sent → Type 0
Spares x (deleted ns name) = ¬ ((ns ≡ x.namespace) × (name ≡ x.name))
Spares x (updated ns written) = ¬ SameKey x written
Spares x (created ns written) = Unit
Spares x (status_updated ns role) = ⊥
Spares x (event_recorded role event) = ⊥
Spares x (asked role duration) = Unit

All-map :
    {A : Type 0} {P Q : A → Type 0} (xs : List A) → ((x : A) → P x → Q x) → All P xs → All Q xs
All-map [] f h = tt
All-map (x ∷ xs) f (p, h) = (f x p, All-map xs f h)

new_secret-has_owner :
    (role : AwsIamRole) (d : SecretData) (x : Secret)
    → IsStored (new_secret role d) x
    → has_owner x ≡ true
unfolding has_owner new_secret
new_secret-has_owner role d x k = rw k.same_owners refl

module _ {S : Type 0} (c : SecretsController S) (secrets : List Secret) (x : Secret)
    (owned : has_owner x ≡ true)
    (only : (y : Secret) → Member y secrets → SameKey x y → y ≡ x) where
  Allowed-Spares : (sent : Sent) → Allowed secrets c.role_store sent → Spares x sent
  unfolding with_data
  Allowed-Spares (deleted ns name) (y, mem, e, e', unowned, unused) = λ (n, m).
      let same = only y mem (record { same_namespace = sym n ∙ e; same_name = sym m ∙ e' }) in
      cc (ap has_owner same)
  Allowed-Spares (updated ns written) (y, d, mem, e, unowned, used, is) = λ k.
      let same = only y mem (record {
        same_namespace = k.same_namespace ∙ ap (λ z. z.namespace) is;
        same_name = k.same_name ∙ ap (λ z. z.name) is;
      }) in
      cc (ap has_owner same)
  Allowed-Spares (created ns written) h = tt
  Allowed-Spares (status_updated ns role) h = h
  Allowed-Spares (event_recorded role event) h = h
  Allowed-Spares (asked role duration) h = tt

-- A listed secret that the AWSIAMRole controller created is neither changed nor deleted by a `refresh`
-- of the secrets controller, whichever roles are in use, if no other listed secret has its namespace
-- and name. The role store is well formed.
pub refresh-Spares :
    {S : Type 0} (c : SecretsController S) (s s' : S) (secrets : List Secret) (role : AwsIamRole)
    (d : SecretData) (x : Secret)
    → c.client.list_secrets c.namespace owner_labels s ≡ (ok secrets, s')
    → StoreValid c.role_store
    → IsStored (new_secret role d) x
    → ((y : Secret) → Member y secrets → SameKey x y → y ≡ x)
    → All (Spares x) (refresh (with_record c) (s, [])).1.1
refresh-Spares c s s' secrets role d x listed valid stored only =
    All-map _ (Allowed-Spares c secrets x (new_secret-has_owner role d x stored) only)
      (refresh-Allowed_by_store c s s' secrets listed valid)
