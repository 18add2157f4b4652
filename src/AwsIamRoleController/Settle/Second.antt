-- ===== src/AwsIamRoleController/Settle/Second.antt =====
-- The second loop of `refresh` of awsiamrole_controller.go in a calm period: the orphans are deleted.
use kube_aws_iam_controller.Base.Tests.{◌≡◌, ◌≢◌, refl, sym, ap, ◌∙◌, none, ◌⊎◌, inl, inr}
use kube_aws_iam_controller.Base.Lists.{List, Member}
use kube_aws_iam_controller.Base.Outcome.{Outcome, ok, err, panic}
use kube_aws_iam_controller.Base.Text.{Text}
use kube_aws_iam_controller.Base.GoMap.Index.{DistinctKeys}
use kube_aws_iam_controller.Base.Flow.{attempt, failed_by}
use kube_aws_iam_controller.Base.Flow.Rounds.{Over, Rounds, AllDone, for_each-AllDone}
use kube_aws_iam_controller.Kube.Types.{Secret, AwsIamRole}
use kube_aws_iam_controller.Kube.Server.{SameKey}
use kube_aws_iam_controller.AwsIamRoleController.Renewal.{AwsIamRoleController, delete_orphan}
use kube_aws_iam_controller.AwsIamRoleController.{secret_key, role_key, roles_map, owner_of}
use kube_aws_iam_controller.AwsIamRoleController.Settle.{Owns, Calm, DistinctKeys-same}
use kube_aws_iam_controller.AwsIamRoleController.Settle.Statuses.{Mirrors, same-Stays}
use kube_aws_iam_controller.AwsIamRoleController.Settle.Calls.{Kept}
use kube_aws_iam_controller.AwsIamRoleController.Settle.Good.{
  SameKey-key, IsGood, NonePending, Stays-IsGood, Owns-owner_of,
}

module _ {S : Type 0} (c : AwsIamRoleController S) (held : S → List Secret)
    (roles : S → List AwsIamRole) (secrets : List Secret) (listed : List AwsIamRole) where
  -- What is held is good or an orphan; the listed secrets with an owner are there.
  pub record Cleaning (orphans : List Secret) (s : S) : Type 0 where
    pub mirrors : Mirrors c held roles listed s
    pub sorted :
        (y : Secret)
        → Member y (held s)
        → IsGood c held roles secrets listed (NonePending c held roles secrets listed) y s
          ⊎ Member y orphans
    pub kept :
        (x : Secret) (role : AwsIamRole)
        → Member x secrets
        → Member role listed
        → Owns role x
        → Kept held x s

  -- Nothing is added.
  abbrev pub Shrinks : S → S → Type 0
  Shrinks s t = (y : Secret) → Member y (held t) → Member y (held s)

  -- No secret of the key is held.
  abbrev pub Gone : Secret → S → Type 0
  Gone x s = (y : Secret) → Member y (held s) → ¬ SameKey x y

  module _ (Refuses : Text → Text → Type 0) (calm : Calm c Refuses held roles)
      (distinct : DistinctKeys role_key listed) (distinct' : DistinctKeys secret_key secrets)
      (orphans : List Secret)
      (orphaned : (x : Secret)
        → Member x orphans
        → Member x secrets × (owner_of (roles_map listed) x ≡ none)) where
    failed_by-Over :
        (x : Secret) (s : S) (r : Outcome (Unit {0}))
        → r ≢ panic
        → Over tt s (failed_by r (λ e s. s) s)
    unfolding failed_by
    failed_by-Over x s (ok _) h = inl refl
    failed_by-Over x s (err e) h = inr refl
    failed_by-Over x s panic h = absurd (h refl)

    -- The secret of an owner is not of the key of an orphan.
    not_orphan :
        (o x : Secret) (role : AwsIamRole)
        → Member o orphans
        → Member x secrets
        → Member role listed
        → Owns role x
        → secret_key x ≢ secret_key o
    not_orphan o x role mem there listed_role owns e =
        let (mem', lost) = orphaned o mem in
        let same = DistinctKeys-same secret_key secrets x o distinct' there mem' e in
        let found = Owns-owner_of listed x role distinct listed_role owns in
        cc (ap (owner_of (roles_map listed)) same)

    delete_orphan-Rounds :
        (o : Secret) (s : S)
        → Member o orphans
        → Cleaning orphans s
        → Rounds (Cleaning orphans) Shrinks Gone (delete_orphan c) o s
    unfolding delete_orphan attempt
    delete_orphan-Rounds o s mem h =
        let (alive, gone) = calm.serves.deletes s o.namespace o.name in
        let t = (c.client.delete_secret o.namespace o.name s).1 in
        let stays =
          same-Stays c held roles listed s t (calm.serves_roles.delete_keeps s o.namespace o.name)
            h.mirrors in
        record {
          after = t;
          over = failed_by-Over o t (c.client.delete_secret o.namespace o.name s).0 alive;
          sound = record {
            mirrors = stays.mirrors;
            sorted = λ y mem'. elim (h.sorted y (gone.gone y mem').0) [
              | inl good ↦ inl (
                  Stays-IsGood c held roles secrets listed (NonePending c held roles secrets listed)
                    y s t stays good)
              | inr orphan ↦ inr orphan
            ];
            kept = λ x role there listed_role owns.
                let (y, mem', k) = h.kept x role there listed_role owns in
                (
                  y,
                  gone.kept y mem' λ (n, m). not_orphan o x role mem there listed_role owns (
                      SameKey-key x y k
                      ∙ SameKey-key y o (record { same_namespace = n; same_name = m })),
                  k,
                );
          };
          grown = λ y mem'. (gone.gone y mem').0;
          achieved = λ y mem' k. (gone.gone y mem').1 (sym k.same_namespace, sym k.same_name);
        }

    pub delete_orphans-AllDone :
        (s : S)
        → Cleaning orphans s
        → AllDone (Cleaning orphans) Shrinks Gone orphans (delete_orphan c) s
    delete_orphans-AllDone s h =
        for_each-AllDone (Cleaning orphans) Shrinks Gone (λ s y m. m) (λ r s t g k y m. g y (k y m))
          (λ x s t g lost y m. lost y (g y m)) orphans (delete_orphan c) s
          (λ o mem t k. delete_orphan-Rounds o t mem k) h
