-- ===== src/SecretsController/Idle.antt =====
-- `refresh` of secrets_controller.go when nothing is left to do.
use kube_aws_iam_controller.Base.Tests.{
  ◌≡◌, refl, ap, true, false, some, ◌⊎◌, inl, inr, arith, Bool-cases, Option-cases,
}
use kube_aws_iam_controller.Base.Lists.{List, [], ◌∷◌, Member}
use kube_aws_iam_controller.Base.Outcome.{ok}
use kube_aws_iam_controller.Base.Text.{Text, text_eq, text_eq_refl}
use kube_aws_iam_controller.Base.GoMap.{lookup, lookup-insert}
use kube_aws_iam_controller.Base.Flow.{next, done, ◌>>=◌}
use kube_aws_iam_controller.Kube.Types.{Secret, SecretData}
use kube_aws_iam_controller.Kube.Recorded.{Sent, recorded}
use kube_aws_iam_controller.Kube.Idles.{Idles, for_each-Idles}
use kube_aws_iam_controller.RoleStore.{Pods, Namespaces, exists}
use kube_aws_iam_controller.RoleStore.Refinement.{exists-add}
use kube_aws_iam_controller.RoleStore.Invariant.{StoreValid}
use kube_aws_iam_controller.SecretFiles.{expires_soon, expire_key, lookup_data}
use kube_aws_iam_controller.SecretFiles.Expiry.{expires_soon-recorded}
use kube_aws_iam_controller.SecretsController.Renewal.{
  SecretsController, owner_labels, role_of, has_owner, refresh_secret,
}
use kube_aws_iam_controller.SecretsController.{
  Found, nothing_found, store_found, cache_data, after_refresh, visit, visit_all, cached_creds,
  create_in, create_for_role, finish, reconcile, with_secrets, refresh,
}
use kube_aws_iam_controller.SecretsController.Calls.{with_record}
use kube_aws_iam_controller.SecretsController.Allowed.{IsUnowned}
use kube_aws_iam_controller.SecretsController.Allowed.Refresh.{
  exists_of_Member, some_namespace, valid_entry,
}

-- The secret and its data were found.
record IsNoted (found : Found) (x : Secret) : Type 0 where
  stored : exists found.tmp_secret_store (role_of x) x.namespace ≡ true
  cached : (d : SecretData) × (lookup (role_of x) found.creds_cache ≡ some d)

-- What is found after a round with data.
noting : Secret → SecretData → Found → Found
noting x d found = cache_data (role_of x) (some d) (store_found x found)

noting-IsNoted : (x : Secret) (d : SecretData) (found : Found) → IsNoted (noting x d found) x
unfolding noting cache_data store_found
noting-IsNoted x d found = record {
  stored = rw (exists-add, text_eq_refl, text_eq_refl) refl;
  cached = (d, rw (lookup-insert, text_eq_refl) refl);
}

noting-kept :
    (x y : Secret) (d : SecretData) (found : Found) → IsNoted found y → IsNoted (noting x d found) y
unfolding noting cache_data store_found
noting-kept x y d found h = record {
  stored = rw (exists-add, h.stored) (ground arith);
  cached = elim (Bool-cases (text_eq (role_of x) (role_of y))) [
    | inl e ↦ (d, rw (lookup-insert, e) refl)
    | inr e ↦ let (d', found') = h.cached in (d', rw (lookup-insert, e) found')
  ];
}

noting-cases :
    (x y : Secret) (d : SecretData) (found : Found) (rest : List Secret)
    → IsNoted found y ⊎ Member y (x ∷ rest)
    → IsNoted (noting x d found) y ⊎ Member y rest
noting-cases x y d found rest (inl h) = inl (noting-kept x y d found h)
noting-cases x y d found rest (inr (inl same)) = inl (rw same (noting-IsNoted x d found))
noting-cases x y d found rest (inr (inr mem)) = inr mem

owned-cases :
    (x y : Secret) (found : Found) (rest : List Secret)
    → has_owner x ≡ true
    → IsUnowned y
    → IsNoted found y ⊎ Member y (x ∷ rest)
    → IsNoted found y ⊎ Member y rest
owned-cases x y found rest owned u (inl h) = inl h
owned-cases x y found rest owned u (inr (inl same)) = cc (ap has_owner same)
owned-cases x y found rest owned u (inr (inr mem)) = inr mem

module _ {S : Type 0} (c : SecretsController S) where
  -- The credentials in the secret are not about to expire, whenever the clock is read.
  abbrev pub IsFresh : Secret → Type 0
  IsFresh secret =
      (s : S)
      → (expires_soon c.codec c.client c.refresh_limit (lookup_data expire_key secret.data_map) s).0
        ≡ false

  -- Every secret that nobody owns is for a role in use and fresh.
  abbrev pub AllInUse : List Secret → Type 0
  AllInUse secrets =
      (x : Secret)
      → Member x secrets
      → IsUnowned x
      → (exists c.role_store (role_of x) x.namespace ≡ true) × IsFresh x

  -- Every role in use has a secret that nobody owns.
  abbrev pub AllProvided : List Secret → Type 0
  AllProvided secrets =
      (role ns : Text)
      → exists c.role_store role ns ≡ true
      → (x : Secret) × Member x secrets × IsUnowned x × (role_of x ≡ role) × (x.namespace ≡ ns)

  pub fresh_data : (x : Secret) (s : S) → IsFresh x → (d : SecretData) × (x.data_map ≡ some d)
  unfolding expires_soon lookup_data
  fresh_data x s fresh = elim (Option-cases x.data_map) [
    | inl e ↦ absurd (cc (rw e at fresh s))
    | inr (d, e) ↦ (d, e)
  ]

  visit-noting :
      (x : Secret) (d : SecretData) (found : Found) (s : S) (log : List Sent)
      → IsUnowned x
      → exists c.role_store (role_of x) x.namespace ≡ true
      → IsFresh x
      → x.data_map ≡ some d
      → (s' : S) × (visit (with_record c) x found (s, log) ≡ (next (noting x d found), (s', log)))
  unfolding visit refresh_secret after_refresh done noting
  visit-noting x d found s log unowned used fresh held =
      let text = lookup_data expire_key x.data_map in
      (
        (expires_soon c.codec c.client c.refresh_limit text s).1,
        rw
            (
              unowned,
              used,
              expires_soon-recorded c.codec c.client c.refresh_limit text s log,
              fresh s,
              held,
            )
            refl,
      )

  visit-owned :
      (x : Secret) (found : Found) (s : S) (log : List Sent)
      → has_owner x ≡ true
      → visit (with_record c) x found (s, log) ≡ (next found, (s, log))
  unfolding visit
  visit-owned x found s log owned = rw owned refl

  create_for_role-Idles :
      (found : Found) (role : Text) (namespaces : Namespaces)
      → ((d : SecretData) × (lookup role found.creds_cache ≡ some d))
      → ((ns : Text) (pods : Pods)
          → Member (ns, pods) namespaces
          → exists found.tmp_secret_store role ns ≡ true)
      → Idles tt (create_for_role (with_record c) found (role, namespaces))
  unfolding create_for_role cached_creds create_in done ◌>>=◌
  create_for_role-Idles found role namespaces (d, cached) there s log =
      let (s1, e1) =
        for_each-Idles namespaces (create_in (with_record c) found role d)
          (λ entry mem s' log'. (s', rw (there entry.0 entry.1 mem) refl)) s log in
      (s1, rw cached e1)

  module _ (secrets : List Secret) (in_use : AllInUse secrets) where
    -- The rounds of the first loop: every secret that nobody owns is noted.
    visit_all-quiet :
        (rest : List Secret) (found : Found) (s : S) (log : List Sent)
        → ((x : Secret) → Member x rest → Member x secrets)
        → (found' : Found) × (s' : S) × (visit_all (with_record c) rest found (s, log)
            ≡ (next found', (s', log)))
          × ((y : Secret) → IsUnowned y → IsNoted found y ⊎ Member y rest → IsNoted found' y)
    unfolding visit_all done ◌>>=◌
    visit_all-quiet [] found s log listed =
        (found, s, refl, λ y u h. elim h [ inl noted ↦ noted | inr none_left ↦ absurd none_left ])
    visit_all-quiet (x ∷ rest) found s log listed = elim (Bool-cases (has_owner x)) [
      | inl owned ↦
          let (found', s', e, noted) = visit_all-quiet rest found s log (λ y m. listed y (inr m)) in
          (
            found',
            s',
            rw (visit-owned x found s log owned) e,
            λ y u h. noted y u (owned-cases x y found rest owned u h),
          )
      | inr unowned ↦
          let (used, fresh) = in_use x (listed x (inl refl)) unowned in
          let (d, held) = fresh_data x s fresh in
          let (s1, e1) = visit-noting x d found s log unowned used fresh held in
          let (found', s', e, noted) =
            visit_all-quiet rest (noting x d found) s1 log (λ y m. listed y (inr m)) in
          (found', s', rw e1 e, λ y u h. noted y u (noting-cases x y d found rest h))
    ]

    role-Idles :
        (found : Found) (role : Text) (namespaces : Namespaces)
        → StoreValid c.role_store
        → AllProvided secrets
        → ((x : Secret) → Member x secrets → IsUnowned x → IsNoted found x)
        → Member (role, namespaces) c.role_store.store
        → Idles tt (create_for_role (with_record c) found (role, namespaces))
    role-Idles found role namespaces valid provided noted mem =
        let used : (ns : Text) (pods : Pods)
            → Member (ns, pods) namespaces
            → exists c.role_store role ns ≡ true =
          λ ns pods mem'. exists_of_Member c.role_store role namespaces ns pods valid mem mem' in
        let ((ns, pods), mem') =
          some_namespace namespaces (valid_entry c.role_store role namespaces valid mem) in
        let (x, listed, u, same, here) = provided role ns (used ns pods mem') in
        create_for_role-Idles found role namespaces (rw (← same) (noted x listed u).cached)
          λ ns pods mem'.
            let (x, listed, u, same, here) = provided role ns (used ns pods mem') in
            rw (← same, ← here) (noted x listed u).stored

    reconcile-quiet :
        (s : S)
        → StoreValid c.role_store
        → AllProvided secrets
        → (s' : S) × (reconcile (with_record c) secrets (s, []) ≡ (ok tt, (s', [])))
    unfolding reconcile finish ◌>>=◌
    reconcile-quiet s valid provided =
        let (found, s1, e1, noted) = visit_all-quiet secrets nothing_found s [] (λ x m. m) in
        let noted_in : (x : Secret) → Member x secrets → IsUnowned x → IsNoted found x =
          λ x mem u. noted x u (inr mem) in
        let (s2, e2) =
          for_each-Idles c.role_store.store (create_for_role (with_record c) found)
            (λ entry mem. role-Idles found entry.0 entry.1 valid provided noted_in mem) s1 [] in
        (s2, rw (e1, e2) refl)

-- If every listed secret that nobody owns is for a role in use in its namespace and not about to expire
-- whenever the clock is read, and every role in use in a namespace has such a secret there, then
-- `refresh` succeeds, asks for no credentials and writes nothing. The store has unique keys, and no
-- role or namespace in it is empty.
pub refresh-idle_in_use :
    {S : Type 0} (c : SecretsController S) (s s' : S) (secrets : List Secret)
    → c.client.list_secrets c.namespace owner_labels s ≡ (ok secrets, s')
    → StoreValid c.role_store
    → AllInUse c secrets
    → AllProvided c secrets
    → (s'' : S) × (refresh (with_record c) (s, []) ≡ (ok tt, (s'', [])))
unfolding refresh with_secrets recorded
refresh-idle_in_use c s s' secrets listed valid in_use provided =
    let (s2, e) = reconcile-quiet c secrets in_use s' valid provided in
    (s2, rw (listed, with_secrets, e) refl)
