-- ===== src/AwsIamRoleController/Settle/Third.antt =====
-- The states between two rounds of the last loop of `refresh` of awsiamrole_controller.go in a calm
-- period.
use mathlib.Core.Path.{subst}
use kube_aws_iam_controller.Base.Tests.{◌≡◌, sym, ap, ◌∙◌, some, ◌⊎◌, inl, inr}
use kube_aws_iam_controller.Base.Lists.{List, Member}
use kube_aws_iam_controller.Base.Outcome.{ok}
use kube_aws_iam_controller.Base.Text.{Text}
use kube_aws_iam_controller.Base.GoMap.Index.{DistinctKeys}
use kube_aws_iam_controller.Kube.Types.{Secret, SecretData, AwsIamRole}
use kube_aws_iam_controller.Kube.Server.{same_key, Wrote, Wrote-keeps}
use kube_aws_iam_controller.SecretFiles.{get_generation, with_generation}
use kube_aws_iam_controller.AwsIamRoleController.Renewal.{AwsIamRoleController}
use kube_aws_iam_controller.AwsIamRoleController.{secret_key, role_key}
use kube_aws_iam_controller.AwsIamRoleController.Secrets.{IsCurrent}
use kube_aws_iam_controller.AwsIamRoleController.Settle.{Owns, IsFreshData, DistinctKeys-same}
use kube_aws_iam_controller.AwsIamRoleController.Settle.Statuses.{Mirrors, Observed, Stays}
use kube_aws_iam_controller.AwsIamRoleController.Settle.Calls.{Kept}
use kube_aws_iam_controller.AwsIamRoleController.Settle.Good.{
  SameKey-key, IsGood, NonePending, Awaits, Stays-IsGood, pending-IsGood, seen-IsGood, stored-Owns,
}

module _ {S : Type 0} (c : AwsIamRoleController S) (held : S → List Secret)
    (roles : S → List AwsIamRole) (secrets : List Secret) (listed : List AwsIamRole) where
  -- A held secret is good, and the listed ones with an owner are there, as they were listed or not.
  pub record Syncing (Pending : Text → Type 0) (s : S) : Type 0 where
    pub mirrors : Mirrors c held roles listed s
    pub good : (y : Secret) → Member y (held s) → IsGood c held roles secrets listed Pending y s
    pub kept :
        (x : Secret) (role : AwsIamRole)
        → Member x secrets
        → Member role listed
        → Owns role x
        → Kept held x s

  -- Between two rounds.
  abbrev pub Settling : S → Type 0
  Settling = Syncing (NonePending c held roles secrets listed)

  -- The role has a secret of its generation.
  abbrev pub HasSecret : AwsIamRole → S → Type 0
  HasSecret role s =
      (y : Secret) × Member y (held s)
      × (secret_key y ≡ role_key role)
      × (get_generation y.data_map ≡ ok role.generation)

  -- The role has a secret and a status of its generation.
  abbrev pub Synced : AwsIamRole → S → Type 0
  Synced role s =
      Member role listed × HasSecret role s × Observed c held roles listed (role_key role) s

  abbrev pub Onward : S → S → Type 0
  Onward s t = (role : AwsIamRole) → Synced role s → Synced role t

  -- A status was written, or nothing.
  pub status-Syncing :
      (Pending : Text → Type 0) (s t : S)
      → Syncing Pending s
      → held t ≡ held s
      → Stays c held roles listed s t
      → Syncing Pending t × Onward s t
  status-Syncing Pending s t h e stays = (
    record {
      mirrors = stays.mirrors;
      good = λ y mem.
          Stays-IsGood c held roles secrets listed Pending y s t stays (h.good y (rw (← e) mem));
      kept = λ x role mem listed_role owns. rw e (h.kept x role mem listed_role owns);
    },
    λ role (mem, (y, mem', key, gen), seen).
        (mem, (y, rw e mem', key, gen), stays.seen (role_key role) seen),
  )

  -- The status that was still to come was written.
  pub seen-Settling :
      (role : AwsIamRole) (s : S)
      → Observed c held roles listed (role_key role) s
      → Syncing (Awaits c held roles secrets listed role) s
      → Settling s
  seen-Settling role s seen h = record {
    mirrors = h.mirrors;
    good = λ y mem. seen-IsGood c held roles secrets listed role y s seen (h.good y mem);
    kept = h.kept;
  }

  pub pending-Syncing : (Pending : Text → Type 0) (s : S) → Settling s → Syncing Pending s
  pending-Syncing Pending s h = record {
    mirrors = h.mirrors;
    good = λ y mem. pending-IsGood c held roles secrets listed Pending y s (h.good y mem);
    kept = h.kept;
  }

  module _ (distinct : DistinctKeys role_key listed)
      (distinct' : DistinctKeys secret_key secrets) where
    -- A secret was written for a role.
    pub secret-Syncing :
        (Pending : Text → Type 0) (role : AwsIamRole) (w : Secret) (d : SecretData) (s t : S)
        → Member role listed
        → IsCurrent role w
        → w.data_map ≡ some (with_generation role.generation d)
        → IsFreshData c d
        → Wrote w (held s) (held t)
        → Stays c held roles listed s t
        → Observed c held roles listed (role_key role) t ⊎ Pending (role_key role)
        → Settling s
        → Syncing Pending t × Onward s t × HasSecret role t
    secret-Syncing Pending role w d s t mem current data_is fresh wrote stays flag h =
        let stored = stored-Owns c held roles secrets listed role w in
        let has : HasSecret role t =
          let (y, there, k) = wrote.there in
          let (owns, _, gen) = stored y d current data_is fresh k in (y, there, sym owns.0, gen) in
        (
          record {
            mirrors = stays.mirrors;
            good = λ y mem'. elim (wrote.new_or_old y mem') [
              | inl k ↦
                  let (owns, fresh', gen) = stored y d current data_is fresh k in
                  let key : secret_key y ≡ role_key role = sym owns.0 in
                  (role, mem, owns, fresh', inr (gen, rw key flag))
              | inr (before, other) ↦
                  Stays-IsGood c held roles secrets listed Pending y s t stays
                    (pending-IsGood c held roles secrets listed Pending y s (h.good y before))
            ];
            kept = λ x r there listed_role owns.
                Wrote-keeps w x (held s) (held t) wrote (h.kept x r there listed_role owns);
          },
          λ r (listed_role, (y, before, key, gen), seen). (
            listed_role,
            elim (same_key w y) [
              | inl k ↦
                  let same =
                    DistinctKeys-same role_key listed role r distinct mem listed_role
                      (sym current.1 ∙ SameKey-key w y k ∙ key) in
                  subst (λ z. HasSecret z t) same has
              | inr other ↦ (y, wrote.kept y before other, key, gen)
            ],
            stays.seen (role_key r) seen,
          ),
          has,
        )

    -- A held secret of the key of a role is as it was listed, or it and the status are of the
    -- generation of the role.
    pub held-Synced :
        (role : AwsIamRole) (y : Secret) (s : S)
        → Member role listed
        → Member y (held s)
        → secret_key y ≡ role_key role
        → Settling s
        → Member y secrets ⊎ (HasSecret role s × Observed c held roles listed (role_key role) s)
    held-Synced role y s mem there key h =
        let (r, listed_role, owns, fresh, standing) = h.good y there in
        let same =
          DistinctKeys-same role_key listed r role distinct listed_role mem (owns.0 ∙ key) in
        elim standing [
          | inl as_listed ↦ inl as_listed
          | inr (gen, inl seen) ↦
              inr ((y, there, key, gen ∙ ap (λ z. ok z.generation) same), rw key at seen)
          | inr (gen, inr never) ↦ absurd never
        ]

    -- The secret of a listed one: it is still that one, or it and the status are of the generation.
    pub kept-Synced :
        (role : AwsIamRole) (x : Secret) (s : S)
        → Member role listed
        → Member x secrets
        → Owns role x
        → Settling s
        → Member x (held s) ⊎ (HasSecret role s × Observed c held roles listed (role_key role) s)
    kept-Synced role x s mem mem' owns h =
        let (y, there, k) = h.kept x role mem' mem owns in
        let key = sym (SameKey-key x y k) ∙ sym owns.0 in
        elim (held-Synced role y s mem there key h) [
          | inl as_listed ↦
              let same =
                DistinctKeys-same secret_key secrets y x distinct' as_listed mem'
                  (sym (SameKey-key x y k)) in
              inl (rw (← same) there)
          | inr done ↦ inr done
        ]

    -- The secret of a role whose listed secret was of its generation.
    pub listed-HasSecret :
        (role : AwsIamRole) (x : Secret) (s : S)
        → Member role listed
        → Member x secrets
        → Owns role x
        → get_generation x.data_map ≡ ok role.generation
        → Settling s
        → HasSecret role s
    listed-HasSecret role x s mem mem' owns gen h = elim (kept-Synced role x s mem mem' owns h) [
      | inl there ↦ (x, there, sym owns.0, gen)
      | inr (has, seen) ↦ has
    ]
