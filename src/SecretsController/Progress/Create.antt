-- ===== src/SecretsController/Progress/Create.antt =====
-- `refresh` of secrets_controller.go creates what is missing.
use mathlib.Core.Path.{subst}
use kube_aws_iam_controller.Base.Tests.{
  ◌≡◌, ◌≢◌, refl, true, false, Option, none, some, ◌⊎◌, inl, inr, arith, Option-cases,
}
use kube_aws_iam_controller.Base.Lists.{List, [], ◌∷◌, Member}
use kube_aws_iam_controller.Base.Outcome.{ok, panic}
use kube_aws_iam_controller.Base.Text.{Text, text_eq_iff}
use kube_aws_iam_controller.Base.GoMap.{lookup, Member-of_lookup}
use kube_aws_iam_controller.Base.Flow.{skip, done, attempt, for_each}
use kube_aws_iam_controller.Base.Flow.Keeps.{bind-ensures, attempt_from, EffectKeeps-id}
use kube_aws_iam_controller.Base.Flow.Reaches.{Reaches, bind-later, for_each-reached}
use kube_aws_iam_controller.Kube.Types.{Secret, SecretData}
use kube_aws_iam_controller.Kube.Recorded.{Sent, created, World, OfLog, recorded, recorded_creds}
use kube_aws_iam_controller.RoleStore.{
  Pods, Namespaces, RoleStore, exists, exists_in, new_role_store,
}
use kube_aws_iam_controller.RoleStore.Refinement.{exists-add}
use kube_aws_iam_controller.SecretsController.Renewal.{
  SecretsController, owner_labels, role_of, new_secret, get_creds, create_secret,
}
use kube_aws_iam_controller.SecretsController.{
  Found, nothing_found, store_found, cache_data, visit, visit_all, cached_creds, create_in,
  create_for_role, reconcile, with_secrets, refresh,
}
use kube_aws_iam_controller.SecretsController.Calls.{with_record}
use kube_aws_iam_controller.SecretsController.Allowed.{HasNoSecret}
use kube_aws_iam_controller.SecretsController.Progress.{
  Grows, FoundIn, visit-FoundIn, visit-going_on, create_in-Keeps, create_for_role-Keeps,
  finish-reached,
}

-- A secret of the role was sent to the namespace, with some data.
abbrev Come : Text → Text → List Sent → Type 0
Come role ns log = (d : SecretData) × Member (created ns (new_secret role ns d)) log

Come-Grows : (role ns : Text) → Grows (Come role ns)
Come-Grows role ns sent log (d, h) = (d, inr h)

-- No secret of the role was found in the namespace.
abbrev IsMissing : Text → Text → Found → Type 0
IsMissing role ns found = exists found.tmp_secret_store role ns ≡ false

store_found-IsMissing :
    (role ns : Text) (secret : Secret) (found : Found)
    → IsMissing role ns found
    → (role_of secret ≡ role → secret.namespace ≢ ns)
    → IsMissing role ns (store_found secret found)
unfolding store_found
store_found-IsMissing role ns secret found h other =
    rw exists-add
      (ground (arith, text_eq_iff (role_of secret) role, text_eq_iff secret.namespace ns))

cache_data-IsMissing :
    (role ns key : Text) (d : Option SecretData) (found : Found)
    → IsMissing role ns found
    → IsMissing role ns (cache_data key d found)
unfolding cache_data
cache_data-IsMissing role ns key none found h = h
cache_data-IsMissing role ns key (some d) found h = h

-- Where the role is in use, the store has an entry for it.
entry_of_exists :
    (store : RoleStore) (role ns : Text)
    → exists store role ns ≡ true
    → (namespaces : Namespaces) × (pods : Pods) × Member (role, namespaces) store.store
      × Member (ns, pods) namespaces
unfolding exists exists_in
entry_of_exists store role ns used = elim (Option-cases (lookup role store.store)) [
  | inl e ↦ absurd (cc (rw e at used))
  | inr (namespaces, e) ↦ elim (Option-cases (lookup ns namespaces)) [
    | inl e' ↦ absurd (cc (rw (e, e') at used))
    | inr (pods, e') ↦ (
      namespaces,
      pods,
      Member-of_lookup role namespaces store.store e,
      Member-of_lookup ns pods namespaces e',
    )
  ]
]

module _ {S : Type 0} (c : SecretsController S) (role ns : Text)
    (answered : (s : S) → (d : SecretData) × ((get_creds c role s).0 ≡ ok d)) where
  create_secret-creates :
      (d : SecretData) (w : World S)
      → OfLog (Come role ns) (create_secret (with_record c) role ns d w).1
  unfolding create_secret recorded
  create_secret-creates d w =
      attempt_from {P = OfLog (Come role ns)} _ _ w (d, inl refl) (λ e. EffectKeeps-id)

  create_in-creates :
      (found : Found) (d : SecretData) (pods : Pods) (w : World S)
      → IsMissing role ns found
      → OfLog (Come role ns) (create_in (with_record c) found role d (ns, pods) w).1
  unfolding create_in
  create_in-creates found d pods w missing = rw missing (create_secret-creates d w)

  get_creds-recorded :
      (w : World S) → (get_creds (with_record c) role w).0 ≡ (get_creds c role w.0).0
  unfolding get_creds recorded_creds
  get_creds-recorded w = refl

  -- The credentials are there, cached or new.
  cached_creds-going_on :
      (cached : Option SecretData) (w : World S)
      → (cached_creds (with_record c) role cached w).0 ≡ skip
      → ⊥
  unfolding cached_creds done attempt
  cached_creds-going_on (some d) w e = cc
  cached_creds-going_on none w e =
      let (d, a) = answered w.0 in
      absurd (cc (rw (get_creds-recorded w, a, cached_creds, done) at e))

  create_for_role-creates :
      (found : Found) (namespaces : Namespaces) (pods : Pods) (w : World S)
      → IsMissing role ns found
      → Member (ns, pods) namespaces
      → Reaches (OfLog (Come role ns)) (create_for_role (with_record c) found (role, namespaces) w)
  unfolding create_for_role
  create_for_role-creates found namespaces pods w missing mem =
      bind-later (OfLog (Come role ns))
        (cached_creds (with_record c) role (lookup role found.creds_cache)) _ w (λ d. Unit {0})
        (cached_creds-going_on (lookup role found.creds_cache) w) (λ d e. tt)
        (λ d w' _.
          for_each-reached (OfLog (Come role ns)) (ns, pods) namespaces _ mem
            (λ w''. inr (create_in-creates found d pods w'' missing))
            (create_in-Keeps c (Come role ns) (Come-Grows role ns) found role d) w')

  module _ (secrets : List Secret) (missing : HasNoSecret secrets role ns) where
    visit-IsMissing :
        (secret : Secret) (found : Found) (w : World S)
        → Member secret secrets
        → IsMissing role ns found
        → FoundIn (IsMissing role ns) (visit (with_record c) secret found w).0
    visit-IsMissing secret found w mem h =
        visit-FoundIn c (IsMissing role ns) secret found w h
          (λ unowned. store_found-IsMissing role ns secret found h (missing secret mem unowned))
          (cache_data-IsMissing role ns)

    visit_all-IsMissing :
        (rest : List Secret) (found : Found) (w : World S)
        → ((x : Secret) → Member x rest → Member x secrets)
        → IsMissing role ns found
        → FoundIn (IsMissing role ns) (visit_all (with_record c) rest found w).0
    unfolding visit_all done
    visit_all-IsMissing [] found w listed h = h
    visit_all-IsMissing (x ∷ rest) found w listed h =
        bind-ensures (λ r. FoundIn (IsMissing role ns) r.0) (visit_all (with_record c) rest)
          (visit (with_record c) x found) w
          (λ f e.
            visit_all-IsMissing rest f _ (λ y m. listed y (inr m))
              (subst (FoundIn (IsMissing role ns)) e
                (visit-IsMissing x found w (listed x (inl refl)) h)))
          (λ e. visit-going_on c x found w e) (λ e. tt)

    reconcile-creates :
        (w : World S)
        → exists c.role_store role ns ≡ true
        → let r = reconcile (with_record c) secrets w in (r.0 ≡ panic) ⊎ Come role ns r.1.1
    unfolding reconcile exists lookup new_role_store
    reconcile-creates w used =
        let (namespaces, pods, mem, mem') = entry_of_exists c.role_store role ns used in
        let gathered = visit_all-IsMissing secrets nothing_found w (λ x m. m) refl in
        finish-reached c (Come role ns) (Come-Grows role ns) _ (
          bind-later (OfLog (Come role ns)) (visit_all (with_record c) secrets nothing_found)
            (λ found. for_each c.role_store.store (create_for_role (with_record c) found)) w
            (IsMissing role ns) (λ e. subst (FoundIn (IsMissing role ns)) e gathered)
            (λ found e. subst (FoundIn (IsMissing role ns)) e gathered)
            (λ found w' h.
              for_each-reached (OfLog (Come role ns)) (role, namespaces) c.role_store.store _ mem
                (λ w''. create_for_role-creates found namespaces pods w'' h mem')
                (create_for_role-Keeps c (Come role ns) (Come-Grows role ns) found) w'))

-- Unless `refresh` panics, it creates a secret for every role in use in a namespace for which no
-- secret that nobody owns was listed there, if credentials for the role are to be had whenever they
-- are asked for, whatever else fails.
pub refresh-creates_missing :
    {S : Type 0} (c : SecretsController S) (s s' : S) (secrets : List Secret) (role ns : Text)
    → c.client.list_secrets c.namespace owner_labels s ≡ (ok secrets, s')
    → exists c.role_store role ns ≡ true
    → HasNoSecret secrets role ns
    → ((s : S) → (d : SecretData) × ((get_creds c role s).0 ≡ ok d))
    → let r = refresh (with_record c) (s, []) in
      (r.0 ≡ panic) ⊎ ((d : SecretData) × Member (created ns (new_secret role ns d)) r.1.1)
unfolding refresh with_secrets recorded
refresh-creates_missing c s s' secrets role ns listed used missing answered =
    rw listed (reconcile-creates c role ns answered secrets missing (s', []) used)
