-- ===== src/AwsIamRoleController/Settle/Refresh.antt =====
-- `refresh` of awsiamrole_controller.go over an API server that no other client writes to: what it
-- leaves, and that the next one has nothing to do.
use kube_aws_iam_controller.Base.Tests.{◌≡◌, refl, sym, ap, ◌∙◌, inl, inr}
use kube_aws_iam_controller.Base.Lists.{List, [], Member}
use kube_aws_iam_controller.Base.Outcome.{ok}
use kube_aws_iam_controller.Base.Text.{Text}
use kube_aws_iam_controller.Base.GoMap.Index.{DistinctKeys}
use kube_aws_iam_controller.Base.Flow.{next_round}
use kube_aws_iam_controller.Kube.Types.{Secret, AwsIamRole}
use kube_aws_iam_controller.AwsIamRoleController.Renewal.{AwsIamRoleController}
use kube_aws_iam_controller.AwsIamRoleController.{
  secret_key, role_key, reconcile, clean_and_sync, finish, refresh,
}
use kube_aws_iam_controller.AwsIamRoleController.Calls.{with_record}
use kube_aws_iam_controller.AwsIamRoleController.Listing.{Listed, refresh-Listed}
use kube_aws_iam_controller.AwsIamRoleController.Idle.{IsFresh, AllOwned, AllSynced, refresh-idle}
use kube_aws_iam_controller.AwsIamRoleController.Settle.{Calm, Fits}
use kube_aws_iam_controller.AwsIamRoleController.Settle.Same.{SameRole-key, SameRole-owned}
use kube_aws_iam_controller.AwsIamRoleController.Settle.Statuses.{start-Mirrors}
use kube_aws_iam_controller.AwsIamRoleController.Settle.First.{Renewing, refresh_secrets-Renewing}
use kube_aws_iam_controller.AwsIamRoleController.Settle.Second.{
  Cleaning, Gone, delete_orphans-AllDone,
}
use kube_aws_iam_controller.AwsIamRoleController.Settle.Third.{Settling, Synced}
use kube_aws_iam_controller.AwsIamRoleController.Settle.Sync.{sync_roles-AllDone}

-- The held secrets are as the held roles want them.
pub record RolesSettled {S : Type 0} (c : AwsIamRoleController S) (secrets : List Secret)
    (roles : List AwsIamRole) : Type 0 where
  pub all_owned : AllOwned c secrets roles
  pub all_fresh : (x : Secret) → Member x secrets → IsFresh c x
  pub all_synced : AllSynced c secrets roles

module _ {S : Type 0} (c : AwsIamRoleController S) (Refuses : Text → Text → Type 0)
    (held : S → List Secret) (roles : S → List AwsIamRole) (calm : Calm c Refuses held roles) where
  both-Listed : (s : S) → Listed c s s (held s) (roles s)
  both-Listed s = record {
    between = s;
    secrets_listed = calm.serves.lists s;
    roles_listed = calm.serves_roles.lists_roles s;
  }

  module _ (s : S) (fits : Fits c Refuses (held s) (roles s)) where
    start-Renewing :
        Renewing c Refuses held roles calm
          (held s)
          (roles s)
          fits.roles_distinct
          fits
          (calm.serves.selected s)
          (held s)
          []
          s
    start-Renewing = record {
      mirrors = start-Mirrors c held roles (roles s) s refl;
      sorted = λ y mem. inr (inl mem);
      kept = λ x mem. (x, mem, record { same_namespace = refl; same_name = refl });
      apart = fits.secrets_distinct;
      still_there = λ x mem. mem;
      orphaned = λ x mem. absurd mem;
    }

    renewed-Cleaning :
        (orphans : List Secret) (t : S)
        → Renewing c Refuses held roles calm
            (held s)
            (roles s)
            fits.roles_distinct
            fits
            (calm.serves.selected s)
            []
            orphans
            t
        → Cleaning c held roles (held s) (roles s) orphans t
    renewed-Cleaning orphans t h = record {
      mirrors = h.mirrors;
      sorted = λ y mem. elim (h.sorted y mem) [
        | inl good ↦ inl good
        | inr (inl none_left) ↦ absurd none_left
        | inr (inr orphan) ↦ inr orphan
      ];
      kept = λ x role mem listed_role owns. h.kept x mem;
    }

    cleaned-Syncing :
        (orphans : List Secret) (t : S)
        → Cleaning c held roles (held s) (roles s) orphans t
        → ((x : Secret) → Member x orphans → Gone c held roles (held s) (roles s) x t)
        → Settling c held roles (held s) (roles s) t
    cleaned-Syncing orphans t h gone = record {
      mirrors = h.mirrors;
      good = λ y mem. elim (h.sorted y mem) [
        | inl good ↦ good
        | inr orphan ↦
            absurd (gone y orphan y mem (record { same_namespace = refl; same_name = refl }))
      ];
      kept = h.kept;
    }

    Syncing-RolesSettled :
        (t : S)
        → Settling c held roles (held s) (roles s) t
        → ((role : AwsIamRole)
            → Member role (roles s)
            → Synced c held roles (held s) (roles s) role t)
        → RolesSettled c (held t) (roles t)
    Syncing-RolesSettled t h synced = record {
      all_owned = λ y mem.
          let (role, listed_role, (key, owned), fresh, standing) = h.good y mem in
          let (r, mem', same) = h.mirrors.to role listed_role in
          (r, mem', SameRole-key role r same ∙ key, SameRole-owned role r y.object_meta same owned);
      all_fresh = λ y mem. let (role, listed_role, owns, fresh, standing) = h.good y mem in fresh;
      all_synced = λ r mem.
          let (role, listed_role, same, status) = h.mirrors.from r mem in
          let (_, (y, mem', key, gen), seen) = synced role listed_role in
          let key' = SameRole-key role r same in
          (y, mem', key ∙ sym key', gen ∙ ap ok (sym same.same_generation), seen r mem key');
    }

    reconcile-RolesSettled :
        (t : S) × (reconcile c (held s) (roles s) s ≡ (ok tt, t))
        × RolesSettled c (held t) (roles t)
    unfolding reconcile clean_and_sync finish next_round
    reconcile-RolesSettled =
        let distinct = fits.roles_distinct in
        let distinct' = fits.secrets_distinct in
        let selected = calm.serves.selected s in
        let (orphans, s1, e1, h1) =
          refresh_secrets-Renewing c Refuses held roles calm (held s) (roles s) distinct fits
            selected (held s) [] s (λ x m. m) start-Renewing in
        let deleted =
          delete_orphans-AllDone c held roles (held s) (roles s) Refuses calm distinct distinct'
            orphans h1.orphaned s1 (renewed-Cleaning orphans s1 h1) in
        let synced =
          sync_roles-AllDone c Refuses held roles calm (held s) (roles s) distinct distinct' fits
            selected deleted.after
            (cleaned-Syncing orphans deleted.after deleted.sound deleted.achieved) in
        (
          synced.after,
          rw (e1, deleted.over, synced.over) refl,
          Syncing-RolesSettled synced.after synced.sound synced.achieved,
        )

  -- While no other client writes secrets or roles, and credentials are given for every role and last:
  -- if no two held secrets and no two roles have the same name and namespace, no held secret comes due
  -- in the meantime, the controller can write the secrets of all roles and the server refuses none of
  -- their names, the labels of the roles have unique keys and their generations are of 64 bits, and a
  -- held secret of the name and namespace of a role is owned by it and has a readable expiry and
  -- generation, then `refresh` succeeds, although the server refuses what `refresh` sends again from
  -- its stale copies. Afterwards every held secret is owned by a role of its name and namespace and
  -- not about to expire, and every role has a secret and a status of its generation.
  pub refresh-RolesSettled :
      (s : S)
      → Fits c Refuses (held s) (roles s)
      → (t : S) × (refresh c s ≡ (ok tt, t)) × RolesSettled c (held t) (roles t)
  refresh-RolesSettled s fits =
      let (t, e, settled) = reconcile-RolesSettled s fits in
      (t, refresh-Listed c s s (held s) (roles s) (both-Listed s) ∙ e, settled)

  -- While no other client writes secrets or roles, credentials are given for every role and last, and
  -- under the same conditions on the held secrets and roles, the `refresh` that comes after another
  -- succeeds, asks for no credentials, writes nothing and reports nothing, if also before it no two
  -- secrets and no two roles have the same name and namespace.
  pub refresh-again :
      (s : S)
      → Fits c Refuses (held s) (roles s)
      → DistinctKeys secret_key (held (refresh c s).1)
      → DistinctKeys role_key (roles (refresh c s).1)
      → let t = (refresh c s).1 in (u : S) × (refresh (with_record c) (t, []) ≡ (ok tt, (u, [])))
  refresh-again s fits distinct distinct' =
      let (t, e, settled) = refresh-RolesSettled s fits in
      let after = ap (λ r. r.1) e in
      rw e (
        refresh-idle c t t (held t) (roles t) (both-Listed t) (rw after at distinct')
          (rw after at distinct) settled.all_owned settled.all_fresh settled.all_synced)
