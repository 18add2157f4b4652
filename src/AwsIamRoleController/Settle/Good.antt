-- ===== src/AwsIamRoleController/Settle/Good.antt =====
-- Which held secrets are as `refresh` of awsiamrole_controller.go leaves them, and which role it finds for
-- a secret.
use kube_aws_iam_controller.Base.Tests.{
  ◌≡◌, refl, sym, ap, ◌∙◌, true, Option, none, some, some-eq, ◌⊎◌, inl, inr, Bool-cases,
}
use kube_aws_iam_controller.Base.Lists.{List, [], Member}
use kube_aws_iam_controller.Base.Outcome.{ok}
use kube_aws_iam_controller.Base.Text.{Text}
use kube_aws_iam_controller.Base.GoMap.{lookup}
use kube_aws_iam_controller.Base.GoMap.Index.{
  DistinctKeys, lookup-index_by_self, lookup-index_by_sound,
}
use kube_aws_iam_controller.Kube.Types.{Secret, SecretData, AwsIamRole}
use kube_aws_iam_controller.Kube.Server.{SameKey, IsStored}
use kube_aws_iam_controller.SecretFiles.{
  lookup_data, get_generation, is_owned_reference, with_generation,
}
use kube_aws_iam_controller.AwsIamRoleController.Renewal.{AwsIamRoleController}
use kube_aws_iam_controller.AwsIamRoleController.{secret_key, role_key, roles_map, owning, owner_of}
use kube_aws_iam_controller.AwsIamRoleController.Secrets.{IsCurrent}
use kube_aws_iam_controller.AwsIamRoleController.Freshness.{lookup-with_generation}
use kube_aws_iam_controller.AwsIamRoleController.Idle.{IsFresh}
use kube_aws_iam_controller.AwsIamRoleController.Settle.{Owns, IsFreshData}
use kube_aws_iam_controller.AwsIamRoleController.Settle.Statuses.{Observed, Stays}

pub SameKey-key : (x y : Secret) → SameKey x y → secret_key x ≡ secret_key y
SameKey-key x y k = rw (k.same_namespace, k.same_name) refl

owning-Owns :
    (found : Option AwsIamRole) (role : AwsIamRole) (x : Secret)
    → owning found x ≡ some role
    → (found ≡ some role)
      × (is_owned_reference role.type_meta role.object_meta x.object_meta ≡ true)
unfolding owning
owning-Owns none role x e = absurd cc
owning-Owns (some r) role x e =
    elim (Bool-cases (is_owned_reference r.type_meta r.object_meta x.object_meta)) [
      | inl owned ↦
          let same : r ≡ role = some-eq (rw owned at e) in (ap some same, rw (← same) owned)
      | inr other ↦ absurd (cc (rw other at e))
    ]

module _ (listed : List AwsIamRole) where
  pub owner_of-Owns :
      (x : Secret) (role : AwsIamRole)
      → owner_of (roles_map listed) x ≡ some role
      → Member role listed × Owns role x
  unfolding owner_of roles_map lookup
  owner_of-Owns x role e =
      let (found, owned) = owning-Owns (lookup (secret_key x) (roles_map listed)) role x e in
      elim (lookup-index_by_sound role_key (secret_key x) listed [] role found) [
        | inl (mem, same) ↦ (mem, (same, owned))
        | inr none_there ↦ absurd cc
      ]

  pub Owns-owner_of :
      (x : Secret) (role : AwsIamRole)
      → DistinctKeys role_key listed
      → Member role listed
      → Owns role x
      → owner_of (roles_map listed) x ≡ some role
  unfolding owner_of owning roles_map
  Owns-owner_of x role distinct mem (same, owned) =
      rw (← same, lookup-index_by_self role_key listed [] role distinct mem, owned) refl

module _ {S : Type 0} (c : AwsIamRoleController S) (held : S → List Secret)
    (roles : S → List AwsIamRole) (secrets : List Secret) (listed : List AwsIamRole) where
  -- The secret was written for the generation of the role, and the status of the role, too, or that is
  -- still to come.
  abbrev pub IsDone : (Text → Type 0) → AwsIamRole → Secret → S → Type 0
  IsDone Pending role y s =
      (get_generation y.data_map ≡ ok role.generation)
      × (Observed c held roles listed (secret_key y) s ⊎ Pending (secret_key y))

  -- The secret is owned by a listed role and fresh, and it is as it was listed, or done.
  abbrev pub IsGood : (Text → Type 0) → Secret → S → Type 0
  IsGood Pending y s =
      (role : AwsIamRole) × Member role listed
      × Owns role y
      × IsFresh c y
      × (Member y secrets ⊎ IsDone Pending role y s)

  -- No status is still to come, or only that of one role.
  abbrev pub NonePending : Text → Type 0
  NonePending key = ⊥

  abbrev pub Awaits : AwsIamRole → Text → Type 0
  Awaits role key = key ≡ role_key role

  pub Stays-IsGood :
      (Pending : Text → Type 0) (y : Secret) (s t : S)
      → Stays c held roles listed s t
      → IsGood Pending y s
      → IsGood Pending y t
  Stays-IsGood Pending y s t stays (role, mem, owns, fresh, standing) = (
    role,
    mem,
    owns,
    fresh,
    elim standing [
      | inl there ↦ inl there
      | inr (gen, inl seen) ↦ inr (gen, inl (stays.seen (secret_key y) seen))
      | inr (gen, inr later) ↦ inr (gen, inr later)
    ],
  )

  pub pending-IsGood :
      (Pending : Text → Type 0) (y : Secret) (s : S) → IsGood NonePending y s → IsGood Pending y s
  pending-IsGood Pending y s (role, mem, owns, fresh, standing) = (
    role,
    mem,
    owns,
    fresh,
    elim standing [
      | inl there ↦ inl there
      | inr (gen, inl seen) ↦ inr (gen, inl seen)
      | inr (gen, inr never) ↦ absurd never
    ],
  )

  pub seen-IsGood :
      (r : AwsIamRole) (y : Secret) (s : S)
      → Observed c held roles listed (role_key r) s
      → IsGood (Awaits r) y s
      → IsGood NonePending y s
  seen-IsGood r y s now (role, mem, owns, fresh, standing) = (
    role,
    mem,
    owns,
    fresh,
    elim standing [
      | inl there ↦ inl there
      | inr (gen, inl seen) ↦ inr (gen, inl seen)
      | inr (gen, inr key) ↦ inr (gen, inl (rw key now))
    ],
  )

  -- What was written for a role.
  pub stored-Owns :
      (role : AwsIamRole) (x y : Secret) (d : SecretData)
      → IsCurrent role x
      → x.data_map ≡ some (with_generation role.generation d)
      → IsFreshData c d
      → IsStored x y
      → Owns role y × IsFresh c y × (get_generation y.data_map ≡ ok role.generation)
  unfolding is_owned_reference lookup_data
  stored-Owns role x y d (selected, same, owned, gen) data_is fresh k =
      let key : secret_key y ≡ role_key role = rw (k.same_namespace, k.same_name) same in
      (
        (sym key, rw k.same_owners owned),
        (λ s. rw (k.same_data ∙ data_is, lookup-with_generation c role.generation d) (fresh s)),
        ap get_generation k.same_data ∙ gen,
      )
