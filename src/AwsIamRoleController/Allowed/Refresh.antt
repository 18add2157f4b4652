-- ===== src/AwsIamRoleController/Allowed/Refresh.antt =====
-- `refresh` of awsiamrole_controller.go sends nothing that is not allowed.
use kube_aws_iam_controller.Base.Tests.{◌≡◌, refl, sym, ap, some, inl, inr, Option-cases}
use kube_aws_iam_controller.Base.Lists.{List, [], ◌∷◌, ◌++◌, All, All-append, Member}
use kube_aws_iam_controller.Base.GoMap.{lookup}
use kube_aws_iam_controller.Base.GoMap.Index.{
  index_by, DistinctKeys, lookup-index_by_sound, lookup-index_by_some,
}
use kube_aws_iam_controller.Base.Flow.{Flow, next, skip, crash, for_each}
use kube_aws_iam_controller.Base.Flow.Keeps.{
  Keeps, next_round-ensures, next_round-keeps, Keeps-for_each,
}
use kube_aws_iam_controller.Kube.Types.{Secret, AwsIamRole}
use kube_aws_iam_controller.Kube.Recorded.{Sent, World, OfLog, recorded}
use kube_aws_iam_controller.AwsIamRoleController.Renewal.{
  AwsIamRoleController, refresh_secret, delete_orphan, sync_existing,
}
use kube_aws_iam_controller.AwsIamRoleController.{
  secret_key, role_key, secrets_map, roles_map, owner_of, refresh_secrets, sync_role, finish,
  clean_and_sync, reconcile, refresh,
}
use kube_aws_iam_controller.AwsIamRoleController.Listing.{Listed, refresh-Listed}
use kube_aws_iam_controller.AwsIamRoleController.Calls.{
  with_record, refresh_secret-Keeps, delete_orphan-Keeps, sync_existing-Keeps, create_missing-Keeps,
}
use kube_aws_iam_controller.AwsIamRoleController.Allowed.{
  IsOrphan, HasNoSecret, Allowed, Log, role-allowed, owner_of-some, owner_of-none,
}

-- What the first loop has found, if it did not panic, are listed orphans.
abbrev Orphaned : List Secret → List AwsIamRole → Secret → Type 0
Orphaned secrets roles secret = Member secret secrets × IsOrphan roles secret

abbrev Orphans : List Secret → List AwsIamRole → List Secret → Type 0
Orphans secrets roles = All (Orphaned secrets roles)

abbrev OrphansIn : List Secret → List AwsIamRole → Flow (List Secret) → Type 0
OrphansIn secrets roles (next found) = Orphans secrets roles found
OrphansIn secrets roles skip = Unit
OrphansIn secrets roles crash = Unit

member-All : (P : Secret → Type 0) (xs : List Secret) (x : Secret) → All P xs → Member x xs → P x
member-All P [] x h mem = absurd mem
member-All P (y ∷ ys) x (py, h) (inl e) = rw e py
member-All P (y ∷ ys) x (py, h) (inr mem) = member-All P ys x h mem

module _ {S : Type 0} (c : AwsIamRoleController S) (secrets : List Secret) (roles : List AwsIamRole)
    (distinct : DistinctKeys role_key roles) where
  refresh_secrets-allowed :
      (rest orphans : List Secret) (w : World S)
      → All (λ secret. Member secret secrets) rest
      → Orphans secrets roles orphans
      → OfLog (Log secrets roles) w
      → let r = refresh_secrets (with_record c) (roles_map roles) rest orphans w in
        OfLog (Log secrets roles) r.1 × OrphansIn secrets roles r.0
  unfolding refresh_secrets
  refresh_secrets-allowed [] orphans w listed found h = (h, found)
  refresh_secrets-allowed (secret ∷ rest) orphans w (mem, listed) found h =
      elim (Option-cases (owner_of (roles_map roles) secret)) [
        | inl e ↦
            let more =
              All-append (Orphaned secrets roles) orphans (secret ∷ []) found
                ((mem, owner_of-none roles secret distinct e), tt) in
            rw (e, refresh_secrets)
              (refresh_secrets-allowed rest (orphans ++ secret ∷ []) w listed more h)
        | inr (role, e) ↦
            let (listed_role, same) = owner_of-some roles secret role e in
            let allowed = role-allowed secrets roles role listed_role in
            let round =
              refresh_secret-Keeps c role allowed secret
                (λ d log k. ((role, secret, d, listed_role, mem, same, refl, refl), k)) in
            rw (e, refresh_secrets)
              (next_round-ensures {P = OfLog (Log secrets roles)}
                (λ r. OfLog (Log secrets roles) r.1 × OrphansIn secrets roles r.0)
                (refresh_secret (with_record c) role secret w)
                (refresh_secrets (with_record c) (roles_map roles) rest orphans) (round.at w h)
                (λ w' h'. refresh_secrets-allowed rest orphans w' listed found h')
                (λ w' h'. (h', tt)))
      ]

  clean_up-allowed :
      (orphans : List Secret)
      → Orphans secrets roles orphans
      → Keeps (OfLog (Log secrets roles)) (for_each orphans (delete_orphan (with_record c)))
  clean_up-allowed orphans found =
      Keeps-for_each orphans (delete_orphan (with_record c)) λ secret mem.
        let (listed, orphan) = member-All (Orphaned secrets roles) orphans secret found mem in
        delete_orphan-Keeps c secret (λ log k. ((secret, listed, refl, refl, orphan), k))

  sync_existing-allowed :
      (role : AwsIamRole) (secret : Secret)
      → Member role roles
      → lookup (role_key role) (index_by secret_key secrets []) ≡ some secret
      → Keeps (OfLog (Log secrets roles)) (sync_existing (with_record c) role secret)
  unfolding lookup
  sync_existing-allowed role secret mem e =
      elim (lookup-index_by_sound secret_key (role_key role) secrets [] secret e) [
        | inl (listed, same) ↦
            sync_existing-Keeps c role (role-allowed secrets roles role mem) secret
              (λ d log k. ((role, secret, d, mem, listed, sym same, refl, refl), k))
        | inr no_entry ↦ absurd (cc)
      ]

  -- The secret that is found for a role is a listed one of its key; none is found where there is none.
  sync_role-allowed :
      (role : AwsIamRole)
      → Member role roles
      → Keeps (OfLog (Log secrets roles)) (sync_role (with_record c) (secrets_map secrets) role)
  unfolding sync_role secrets_map
  sync_role-allowed role mem =
      let allowed = role-allowed secrets roles role mem in
      elim (Option-cases (lookup (role_key role) (index_by secret_key secrets []))) [
        | inl e ↦
            let missing : HasNoSecret secrets role = λ secret listed same.
              lookup-index_by_some secret_key (role_key role) secrets []
                (inl (secret, listed, same)) e in
            rw (e, sync_role)
              (create_missing-Keeps c role allowed
                (λ d log k. ((role, d, mem, missing, refl, refl), k)))
        | inr (secret, e) ↦ rw (e, sync_role) (sync_existing-allowed role secret mem e)
      ]

  finish-keeps :
      (r : Flow (Unit {0}) × World S)
      → OfLog (Log secrets roles) r.1
      → OfLog (Log secrets roles) (finish (with_record c) r).1
  unfolding finish
  finish-keeps (next _, w) h = h
  finish-keeps (skip, w) h = h
  finish-keeps (crash, w) h = h

  sync_roles-allowed :
      Keeps
        (OfLog (Log secrets roles))
        (for_each roles (sync_role (with_record c) (secrets_map secrets)))
  sync_roles-allowed =
      Keeps-for_each roles (sync_role (with_record c) (secrets_map secrets)) sync_role-allowed

  clean_and_sync-allowed :
      (r : Flow (List Secret)) (w : World S)
      → OfLog (Log secrets roles) w
      → OrphansIn secrets roles r
      → OfLog
          (Log secrets roles)
          (clean_and_sync (with_record c) (secrets_map secrets) roles (r, w)).1
  unfolding clean_and_sync
  clean_and_sync-allowed (next orphans) w h found = finish-keeps _ (
      next_round-keeps (for_each orphans (delete_orphan (with_record c)) w) _
        ((clean_up-allowed orphans found).at w h) sync_roles-allowed)
  clean_and_sync-allowed skip w h found = h
  clean_and_sync-allowed crash w h found = h

  members :
      (xs : List Secret)
      → ((x : Secret) → Member x xs → Member x secrets)
      → All (λ x. Member x secrets) xs
  members [] h = tt
  members (x ∷ xs) h = (h x (inl refl), members xs (λ y mem. h y (inr mem)))

  -- The three loops over what was listed.
  reconcile-allowed :
      (w : World S)
      → OfLog (Log secrets roles) w
      → OfLog (Log secrets roles) (reconcile (with_record c) secrets roles w).1
  unfolding reconcile
  reconcile-allowed w h =
      let (kept, found) =
        refresh_secrets-allowed secrets [] w (members secrets (λ x mem. mem)) tt h in
      clean_and_sync-allowed (refresh_secrets (with_record c) (roles_map roles) secrets [] w).0 _
        kept found

-- The same lists are seen over the record.
pub Listed-with_record :
    {S : Type 0} (c : AwsIamRoleController S) (s s' : S) (secrets : List Secret)
    (roles : List AwsIamRole)
    → Listed c s s' secrets roles
    → (log : List Sent) → Listed (with_record c) (s, log) (s', log) secrets roles
unfolding recorded
Listed-with_record c s s' secrets roles l log = record {
  between = (l.between, log);
  secrets_listed = ap (λ p. (p.0, (p.1, log))) l.secrets_listed;
  roles_listed = ap (λ p. (p.0, (p.1, log))) l.roles_listed;
}

-- Whatever the services answer: all that `refresh` sends, starting from an empty record, is allowed
-- by the secrets and the roles that the API server listed, if no two of the roles have the same
-- name and namespace.
pub refresh-Allowed :
    {S : Type 0} (c : AwsIamRoleController S) (s s' : S) (secrets : List Secret)
    (roles : List AwsIamRole)
    → Listed c s s' secrets roles
    → DistinctKeys role_key roles
    → All (Allowed secrets roles) (refresh (with_record c) (s, [])).1.1
refresh-Allowed c s s' secrets roles listed distinct =
    rw
      (refresh-Listed (with_record c) (s, []) (s', []) secrets roles
        (Listed-with_record c s s' secrets roles listed []))
      (reconcile-allowed c secrets roles distinct (s', []) tt)
