-- ===== src/SecretsController.antt =====
-- secrets_controller.go: the controller that keeps secrets for the roles of the role store.
-- `Renewal` has what is done for one object, this file the loops of `refresh`.
pub mod Renewal
pub mod Calls
pub mod Allowed
pub mod Progress
pub mod Idle
pub mod Settle
pub mod Loop
pub mod Liveness
use kube_aws_iam_controller.Base.Tests.{Option, none, some, if◌then◌else◌}
use kube_aws_iam_controller.Base.Lists.{List, [], ◌∷◌}
use kube_aws_iam_controller.Base.Outcome.{Outcome, ok, err, panic}
use kube_aws_iam_controller.Base.Text.{Text}
use kube_aws_iam_controller.Base.GoMap.{GoMap, lookup, insert}
use kube_aws_iam_controller.Base.Flow.{
  Flow, next, skip, crash, Call, Step, for_each, attempt, done, ◌>>=◌,
}
use kube_aws_iam_controller.Kube.Types.{Secret, SecretData}
use kube_aws_iam_controller.RoleStore.{RoleStore, Pods, Namespaces, new_role_store, exists, add}
use kube_aws_iam_controller.SecretsController.Renewal.{
  SecretsController, owner_labels, role_of, has_owner, delete_unused, refresh_secret, get_creds,
  create_secret,
}

-- The two local variables of the first loop.
pub record Found : Type 0 where
  pub creds_cache : GoMap SecretData
  pub tmp_secret_store : RoleStore

abbrev pub nothing_found : Found
nothing_found = record { creds_cache = []; tmp_secret_store = new_role_store }

-- `tmpSecretStore.Add(role, secret.Namespace, "")`
unfoldable pub store_found : Secret → Found → Found
store_found secret found = record found {
  tmp_secret_store = add found.tmp_secret_store (role_of secret) secret.namespace [];
}

-- `if secret.Data != nil { credsCache[role] = secret.Data }`
unfoldable pub cache_data : Text → Option SecretData → Found → Found
cache_data role none found = found
cache_data role (some data_map) found = record found {
  creds_cache = insert role data_map found.creds_cache;
}

module _ {S : Type 0} (c : SecretsController S) where
  -- One round of the first loop, with what was found so far; an owned secret is skipped.
  unfoldable pub after_refresh : Text → Found → Flow (Option SecretData) × S → Flow Found × S
  after_refresh role found (next data_map, s) = (next (cache_data role data_map found), s)
  after_refresh role found (skip, s) = (next found, s)
  after_refresh role found (crash, s) = (crash, s)

  unfoldable pub after_delete : Found → Flow (Unit {0}) × S → Flow Found × S
  after_delete found (next _, s) = (next found, s)
  after_delete found (skip, s) = (next found, s)
  after_delete found (crash, s) = (crash, s)

  unfoldable pub visit : Secret → Found → Step S Found
  unfolding after_refresh after_delete
  visit secret found s =
      if has_owner secret
      then (next found, s)
      else if exists c.role_store (role_of secret) secret.namespace
      then after_refresh (role_of secret) (store_found secret found) (refresh_secret c secret s)
      else after_delete (store_found secret found) (delete_unused c secret s)

  unfoldable pub visit_all : List Secret → Found → Step S Found
  visit_all [] found = done found
  visit_all (secret ∷ secrets) found = visit secret found >>= visit_all secrets

  -- `creds, ok := credsCache[role]`, or new credentials.
  unfoldable pub cached_creds : Text → Option SecretData → Step S SecretData
  cached_creds role (some data_map) = done data_map
  cached_creds role none = attempt (get_creds c role) (λ e s. s)

  -- One namespace of a role; a secret that exists is left alone.
  unfoldable pub create_in : Found → Text → SecretData → Text × Pods → Step S (Unit {0})
  create_in found role creds (ns, pods) =
      if exists found.tmp_secret_store role ns then done tt else create_secret c role ns creds

  -- One role of the store.
  unfoldable pub create_for_role : Found → Text × Namespaces → Step S (Unit {0})
  unfolding cached_creds
  create_for_role found (role, namespaces) = do
    creds ← cached_creds role (lookup role found.creds_cache)
    for_each namespaces (create_in found role creds)

  unfoldable pub finish : Flow (Unit {0}) × S → Outcome (Unit {0}) × S
  finish (next _, s) = (ok tt, s)
  finish (skip, s) = (ok tt, s)
  finish (crash, s) = (panic, s)

  -- The loops over the secrets and over the store.
  unfoldable pub reconcile : List Secret → Call S (Unit {0})
  reconcile secrets s = finish (
      (visit_all secrets nothing_found >>= λ found.
      for_each c.role_store.store (create_for_role found))
        s)

  with_secrets : Outcome (List Secret) → Call S (Unit {0})
  with_secrets (ok secrets) s = reconcile secrets s
  with_secrets (err e) s = (err e, s)
  with_secrets panic s = (panic, s)

  unfoldable pub refresh : Call S (Unit {0})
  unfolding with_secrets
  refresh s = let (r, s') = c.client.list_secrets c.namespace owner_labels s in with_secrets r s'
