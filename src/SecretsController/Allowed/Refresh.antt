-- ===== src/SecretsController/Allowed/Refresh.antt =====
-- `refresh` of secrets_controller.go sends nothing that is not allowed.
use kube_aws_iam_controller.Base.Tests.{◌≡◌, refl, true, Option, none, some, ◌⊎◌, inl, inr}
use kube_aws_iam_controller.Base.Lists.{List, [], ◌∷◌, All, Member}
use kube_aws_iam_controller.Base.Outcome.{ok}
use kube_aws_iam_controller.Base.Text.{Text}
use kube_aws_iam_controller.Base.GoMap.{lookup, AllValues-lookup, lookup_of_Member}
use kube_aws_iam_controller.Base.Flow.{Flow, next, skip, crash, for_each}
use kube_aws_iam_controller.Base.Flow.Keeps.{
  Keeps, bind-ensures, Keeps-bind, Keeps-for_each, Keeps-attempt, Keeps-done, Keeps-if,
  EffectKeeps-id,
}
use kube_aws_iam_controller.Kube.Types.{Secret, SecretData}
use kube_aws_iam_controller.Kube.Recorded.{World, OfLog, recorded}
use kube_aws_iam_controller.RoleStore.{RoleStore, Pods, Namespaces, exists}
use kube_aws_iam_controller.RoleStore.Refinement.{exists_of_lookup}
use kube_aws_iam_controller.RoleStore.Invariant.{NamespacesValid, StoreValid}
use kube_aws_iam_controller.SecretsController.Renewal.{SecretsController, owner_labels}
use kube_aws_iam_controller.SecretsController.{
  Found, nothing_found, visit_all, cached_creds, create_in, create_for_role, finish, reconcile,
  with_secrets, refresh,
}
use kube_aws_iam_controller.SecretsController.Calls.{
  with_record, get_creds-keeps, create_in_namespace-Keeps,
}
use kube_aws_iam_controller.SecretsController.Allowed.{
  HasNoSecret, Allowed, Log, Covers, visit_all-Ends,
}

-- A namespace of a role of the store is one where the role is in use.
pub exists_of_Member :
    (store : RoleStore) (role : Text) (namespaces : Namespaces) (ns : Text) (pods : Pods)
    → StoreValid store
    → Member (role, namespaces) store.store
    → Member (ns, pods) namespaces
    → exists store role ns ≡ true
exists_of_Member store role namespaces ns pods (u, vs) mem mem' =
    let found = lookup_of_Member role namespaces store.store u mem in
    let (un, _, _) = AllValues-lookup NamespacesValid role store.store vs found in
    exists_of_lookup store role ns namespaces pods found
      (lookup_of_Member ns pods namespaces un mem')

pub some_namespace :
    (namespaces : Namespaces)
    → NamespacesValid namespaces
    → (entry : Text × Pods) × Member entry namespaces
some_namespace [] (u, ne, vs) = absurd (ne refl)
some_namespace (entry ∷ rest) v = (entry, inl refl)

-- The namespaces of a role of the store, and one of them.
pub valid_entry :
    (store : RoleStore) (role : Text) (namespaces : Namespaces)
    → StoreValid store
    → Member (role, namespaces) store.store
    → NamespacesValid namespaces
valid_entry store role namespaces (u, vs) mem =
    AllValues-lookup NamespacesValid role store.store vs
      (lookup_of_Member role namespaces store.store u mem)

module _ {S : Type 0} (c : SecretsController S) (secrets : List Secret)
    (valid : StoreValid c.role_store) where
  create_in-allowed :
      (found : Found) (role : Text) (namespaces : Namespaces) (creds : SecretData)
      (entry : Text × Pods)
      → Covers found (λ s. Member s secrets)
      → Member (role, namespaces) c.role_store.store
      → Member entry namespaces
      → Keeps (OfLog (Log secrets c.role_store)) (create_in (with_record c) found role creds entry)
  unfolding create_in
  create_in-allowed found role namespaces creds (ns, pods) covered mem mem' =
      let used = exists_of_Member c.role_store role namespaces ns pods valid mem mem' in
      Keeps-if (exists found.tmp_secret_store role ns) _ _ (λ _. Keeps-done tt)
        (λ free.
          let missing : HasNoSecret secrets role ns =
            λ secret listed unowned same here. let there = covered secret listed unowned in cc in
          create_in_namespace-Keeps c role ns creds
            (λ log g. ((role, creds, used, missing, refl), g)))

  cached_creds-allowed :
      (role : Text) (namespaces : Namespaces) (cached : Option SecretData)
      → Member (role, namespaces) c.role_store.store
      → Keeps (OfLog (Log secrets c.role_store)) (cached_creds (with_record c) role cached)
  unfolding cached_creds
  cached_creds-allowed role namespaces (some data_map) mem = Keeps-done data_map
  cached_creds-allowed role namespaces none mem =
      let ((ns, pods), mem') =
        some_namespace namespaces (valid_entry c.role_store role namespaces valid mem) in
      let used = exists_of_Member c.role_store role namespaces ns pods valid mem mem' in
      Keeps-attempt _ _ (get_creds-keeps c role (λ log g. ((ns, used, refl), g)))
        (λ e. EffectKeeps-id)

  create_for_role-allowed :
      (found : Found) (entry : Text × Namespaces)
      → Covers found (λ s. Member s secrets)
      → Member entry c.role_store.store
      → Keeps (OfLog (Log secrets c.role_store)) (create_for_role (with_record c) found entry)
  unfolding create_for_role
  create_for_role-allowed found (role, namespaces) covered mem =
      Keeps-bind _ _ (cached_creds-allowed role namespaces (lookup role found.creds_cache) mem)
        λ creds.
          Keeps-for_each namespaces _
            λ entry mem'. create_in-allowed found role namespaces creds entry covered mem mem'

  finish-keeps :
      (r : Flow (Unit {0}) × World S)
      → OfLog (Log secrets c.role_store) r.1
      → OfLog (Log secrets c.role_store) (finish (with_record c) r).1
  unfolding finish
  finish-keeps (next _, w) h = h
  finish-keeps (skip, w) h = h
  finish-keeps (crash, w) h = h

  members :
      (xs : List Secret)
      → ((x : Secret) → Member x xs → Member x secrets)
      → All (λ x. Member x secrets) xs
  members [] h = tt
  members (x ∷ xs) h = (h x (inl refl), members xs (λ y mem. h y (inr mem)))

  reconcile-allowed :
      (w : World S)
      → OfLog (Log secrets c.role_store) w
      → OfLog (Log secrets c.role_store) (reconcile (with_record c) secrets w).1
  unfolding reconcile
  reconcile-allowed w h =
      let (h', covered) =
        visit_all-Ends c secrets secrets nothing_found w (λ s. ⊥) (members secrets (λ x mem. mem)) h
          (λ s no u. absurd no) in
      finish-keeps _ (
        bind-ensures (λ r. OfLog (Log secrets c.role_store) r.1)
          (λ found. for_each c.role_store.store (create_for_role (with_record c) found))
          (visit_all (with_record c) secrets nothing_found) w
          (λ found e.
            let all : Covers found (λ s. ⊥ ⊎ Member s secrets) = rw e at covered in
            (Keeps-for_each c.role_store.store (create_for_role (with_record c) found) (λ entry mem.
                create_for_role-allowed found entry (λ s m u. all s (inr m) u) mem)).at
              _ h')
          (λ e. h') (λ e. h'))

-- Whatever the services answer: all that `refresh` sends, starting from an empty record, is allowed
-- by the secrets that the API server listed and by the store of the roles in use, if the store has
-- unique keys and no role or namespace in it is empty.
pub refresh-Allowed_by_store :
    {S : Type 0} (c : SecretsController S) (s s' : S) (secrets : List Secret)
    → c.client.list_secrets c.namespace owner_labels s ≡ (ok secrets, s')
    → StoreValid c.role_store
    → All (Allowed secrets c.role_store) (refresh (with_record c) (s, [])).1.1
unfolding refresh with_secrets recorded
refresh-Allowed_by_store c s s' secrets listed valid =
    rw listed (reconcile-allowed c secrets valid (s', []) tt)
