-- ===== src/AwsIamRoleController/Idle.antt =====
-- `refresh` of awsiamrole_controller.go when nothing is left to do.
use kube_aws_iam_controller.Base.Tests.{◌≡◌, refl, true, false, some, inl, inr}
use kube_aws_iam_controller.Base.Lists.{List, [], ◌∷◌, Member}
use kube_aws_iam_controller.Base.Int.{eqb_ℤ_iff}
use kube_aws_iam_controller.Base.Outcome.{ok}
use kube_aws_iam_controller.Base.GoMap.Index.{DistinctKeys, lookup-index_by_self}
use kube_aws_iam_controller.Base.Flow.{done, next_round, for_each, ◌>>=◌}
use kube_aws_iam_controller.Kube.Types.{Secret, AwsIamRole}
use kube_aws_iam_controller.Kube.Idles.{Idles, for_each-Idles}
use kube_aws_iam_controller.SecretFiles.{
  expire_key, lookup_data, expires_soon, get_generation, is_owned_reference,
}
use kube_aws_iam_controller.SecretFiles.Expiry.{expires_soon-recorded}
use kube_aws_iam_controller.AwsIamRoleController.Renewal.{
  AwsIamRoleController, observed, refresh_secret, sync_existing,
}
use kube_aws_iam_controller.AwsIamRoleController.{
  secret_key, role_key, secrets_map, roles_map, owning, owner_of, refresh_secrets, sync_role,
  finish, clean_and_sync, reconcile, refresh,
}
use kube_aws_iam_controller.AwsIamRoleController.Calls.{with_record}
use kube_aws_iam_controller.AwsIamRoleController.Listing.{Listed, refresh-Listed}
use kube_aws_iam_controller.AwsIamRoleController.Allowed.Refresh.{Listed-with_record}

module _ {S : Type 0} (c : AwsIamRoleController S) where
  -- The credentials in the secret are not about to expire, whenever the clock is read.
  abbrev pub IsFresh : Secret → Type 0
  IsFresh secret =
      (s : S)
      → (expires_soon c.codec c.client c.refresh_limit (lookup_data expire_key secret.data_map) s).0
        ≡ false

  refresh_secret-Idles :
      (role : AwsIamRole) (secret : Secret)
      → IsFresh secret
      → Idles tt (refresh_secret (with_record c) role secret)
  unfolding refresh_secret done
  refresh_secret-Idles role secret fresh s log =
      let text = lookup_data expire_key secret.data_map in
      (
        (expires_soon c.codec c.client c.refresh_limit text s).1,
        rw (expires_soon-recorded c.codec c.client c.refresh_limit text s log, fresh s),
      )

  sync_existing-Idles :
      (role : AwsIamRole) (secret : Secret)
      → get_generation secret.data_map ≡ ok role.generation
      → observed role ≡ true
      → Idles tt (sync_existing (with_record c) role secret)
  unfolding sync_existing ◌>>=◌
  sync_existing-Idles role secret e seen s log =
      (s, rw (e, (eqb_ℤ_iff role.generation role.generation).1 refl, seen))

  -- Each listed secret is owned by a listed role of its name and namespace.
  abbrev pub AllOwned : List Secret → List AwsIamRole → Type 0
  AllOwned secrets roles =
      (secret : Secret)
      → Member secret secrets
      → (role : AwsIamRole) × Member role roles
        × (role_key role ≡ secret_key secret)
        × (is_owned_reference role.type_meta role.object_meta secret.object_meta ≡ true)

  -- Each listed role has a listed secret of its name, namespace and generation, and a status of
  -- that generation.
  abbrev pub AllSynced : List Secret → List AwsIamRole → Type 0
  AllSynced secrets roles =
      (role : AwsIamRole)
      → Member role roles
      → (secret : Secret) × Member secret secrets
        × (secret_key secret ≡ role_key role)
        × (get_generation secret.data_map ≡ ok role.generation)
        × (observed role ≡ true)

  module _ (secrets : List Secret) (roles : List AwsIamRole)
      (distinct : DistinctKeys role_key roles) (distinct' : DistinctKeys secret_key secrets) where
    owner_of-AllOwned :
        AllOwned secrets roles
        → (secret : Secret) → Member secret secrets
        → (role : AwsIamRole) × (owner_of (roles_map roles) secret ≡ some role)
    unfolding owner_of owning roles_map
    owner_of-AllOwned owned secret mem =
        let (role, listed, same, ref) = owned secret mem in
        (role, rw (← same, lookup-index_by_self role_key roles [] role distinct listed, ref))

    refresh_secrets-Idles :
        (rest : List Secret)
        → ((secret : Secret) → Member secret rest → Member secret secrets)
        → AllOwned secrets roles
        → ((secret : Secret) → Member secret secrets → IsFresh secret)
        → Idles [] (refresh_secrets (with_record c) (roles_map roles) rest [])
    unfolding refresh_secrets next_round
    refresh_secrets-Idles [] listed owned fresh s log = (s, refl)
    refresh_secrets-Idles (secret ∷ rest) listed owned fresh s log =
        let mem = listed secret (inl refl) in
        let (role, e) = owner_of-AllOwned owned secret mem in
        let (s1, e1) = refresh_secret-Idles role secret (fresh secret mem) s log in
        let (s2, e2) = refresh_secrets-Idles rest (λ x m. listed x (inr m)) owned fresh s1 log in
        (s2, rw (e, refresh_secrets, e1) e2)

    sync_role-Idles :
        AllSynced secrets roles
        → (role : AwsIamRole) → Member role roles
        → Idles tt (sync_role (with_record c) (secrets_map secrets) role)
    unfolding sync_role secrets_map
    sync_role-Idles synced role mem s log =
        let (secret, listed, same, gen, seen) = synced role mem in
        let (s1, e1) = sync_existing-Idles role secret gen seen s log in
        (
          s1,
          rw (← same, lookup-index_by_self secret_key secrets [] secret distinct' listed, sync_role)
              e1,
        )

  -- If no two listed roles and no two listed secrets have the same name and namespace, every listed
  -- secret is owned and not about to expire whenever the clock is read, and every listed role has a
  -- secret and a status of its generation, then `refresh` succeeds, asks for no credentials, writes
  -- nothing and reports nothing.
  pub refresh-idle :
      (s s' : S) (secrets : List Secret) (roles : List AwsIamRole)
      → Listed c s s' secrets roles
      → DistinctKeys role_key roles
      → DistinctKeys secret_key secrets
      → AllOwned secrets roles
      → ((secret : Secret) → Member secret secrets → IsFresh secret)
      → AllSynced secrets roles
      → (s'' : S) × (refresh (with_record c) (s, []) ≡ (ok tt, (s'', [])))
  unfolding reconcile clean_and_sync finish for_each next_round
  refresh-idle s s' secrets roles listed distinct distinct' owned fresh synced =
      let l = Listed-with_record c s s' secrets roles listed [] in
      let (s1, e1) =
        refresh_secrets-Idles secrets roles distinct distinct' secrets (λ x m. m) owned fresh s'
          [] in
      let (s2, e2) =
        for_each-Idles roles (sync_role (with_record c) (secrets_map secrets))
          (sync_role-Idles secrets roles distinct distinct' synced) s1 [] in
      (s2, rw (refresh-Listed (with_record c) (s, []) (s', []) secrets roles l, e1, e2))
