-- ===== src/SecretsController/Progress/Delete.antt =====
-- `refresh` of secrets_controller.go deletes what is no longer in use.
use kube_aws_iam_controller.Base.Tests.{◌≡◌, refl, false, ◌⊎◌, inl, inr}
use kube_aws_iam_controller.Base.Lists.{List, [], ◌∷◌, Member}
use kube_aws_iam_controller.Base.Outcome.{ok, panic}
use kube_aws_iam_controller.Base.Flow.{for_each}
use kube_aws_iam_controller.Base.Flow.Keeps.{Keeps-for_each, attempt_from, EffectKeeps-id}
use kube_aws_iam_controller.Base.Flow.Reaches.{Reaches, bind-reached, bind-later}
use kube_aws_iam_controller.Kube.Types.{Secret}
use kube_aws_iam_controller.Kube.Recorded.{Sent, deleted, World, OfLog, recorded}
use kube_aws_iam_controller.RoleStore.{exists}
use kube_aws_iam_controller.SecretsController.Renewal.{
  SecretsController, owner_labels, role_of, delete_unused,
}
use kube_aws_iam_controller.SecretsController.{
  Found, nothing_found, store_found, visit, visit_all, create_for_role, reconcile, with_secrets,
  refresh,
}
use kube_aws_iam_controller.SecretsController.Calls.{with_record}
use kube_aws_iam_controller.SecretsController.Allowed.{IsUnowned}
use kube_aws_iam_controller.SecretsController.Progress.{
  Grows, visit-going_on, after_delete-log, visit_all-Keeps, create_for_role-Keeps, finish-reached,
}

-- The secret's deletion was sent.
abbrev Gone : Secret → List Sent → Type 0
Gone secret = Member (deleted secret.namespace secret.name)

Gone-Grows : (secret : Secret) → Grows (Gone secret)
Gone-Grows secret sent log h = inr h

module _ {S : Type 0} (c : SecretsController S) (secret : Secret) (unowned : IsUnowned secret)
    (unused : exists c.role_store (role_of secret) secret.namespace ≡ false) where
  delete_unused-deletes :
      (w : World S) → OfLog (Gone secret) (delete_unused (with_record c) secret w).1
  unfolding delete_unused recorded
  delete_unused-deletes w =
      attempt_from {P = OfLog (Gone secret)} _ _ w (inl refl) (λ e. EffectKeeps-id)

  visit-deletes :
      (found : Found) (w : World S) → OfLog (Gone secret) (visit (with_record c) secret found w).1
  unfolding visit
  visit-deletes found w =
      let r = delete_unused (with_record c) secret w in
      rw (unowned, unused, after_delete-log c (store_found secret found) r.0 r.1)
        (delete_unused-deletes w)

  visit_all-deletes :
      (rest : List Secret) (found : Found) (w : World S)
      → Member secret rest
      → Reaches (OfLog (Gone secret)) (visit_all (with_record c) rest found w)
  unfolding visit_all
  visit_all-deletes [] found w mem = absurd mem
  visit_all-deletes (x ∷ rest) found w (inl same) =
      bind-reached (OfLog (Gone secret)) (visit (with_record c) x found)
        (visit_all (with_record c) rest) w (inr (rw (← same) (visit-deletes found w)))
        (visit_all-Keeps c (Gone secret) (Gone-Grows secret) rest)
  visit_all-deletes (x ∷ rest) found w (inr mem) =
      bind-later (OfLog (Gone secret)) (visit (with_record c) x found)
        (visit_all (with_record c) rest) w (λ f. Unit {0}) (visit-going_on c x found w) (λ f e. tt)
        (λ f w' _. visit_all-deletes rest f w' mem)

  reconcile-deletes :
      (secrets : List Secret) (w : World S)
      → Member secret secrets
      → let r = reconcile (with_record c) secrets w in (r.0 ≡ panic) ⊎ Gone secret r.1.1
  unfolding reconcile
  reconcile-deletes secrets w mem = finish-reached c (Gone secret) (Gone-Grows secret) _ (
      bind-reached (OfLog (Gone secret)) (visit_all (with_record c) secrets nothing_found)
        (λ found. for_each c.role_store.store (create_for_role (with_record c) found)) w
        (visit_all-deletes secrets nothing_found w mem)
        (λ found.
          Keeps-for_each c.role_store.store _
            (λ entry _. create_for_role-Keeps c (Gone secret) (Gone-Grows secret) found entry)))

-- Unless `refresh` panics, it deletes every listed secret that nobody owns and whose role is not in
-- use in its namespace, whatever fails before.
pub refresh-deletes_unused :
    {S : Type 0} (c : SecretsController S) (s s' : S) (secrets : List Secret) (secret : Secret)
    → c.client.list_secrets c.namespace owner_labels s ≡ (ok secrets, s')
    → Member secret secrets
    → IsUnowned secret
    → exists c.role_store (role_of secret) secret.namespace ≡ false
    → let r = refresh (with_record c) (s, []) in
      (r.0 ≡ panic) ⊎ Member (deleted secret.namespace secret.name) r.1.1
unfolding refresh with_secrets recorded
refresh-deletes_unused c s s' secrets secret listed mem unowned unused =
    rw listed (reconcile-deletes c secret unowned unused secrets (s', []) mem)
