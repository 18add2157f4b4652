-- ===== src/SecretsController/Settle.antt =====
-- What one `refresh` of secrets_controller.go leaves behind, over an API server that no other client
-- writes to. This file has the first loop: what holds of the held secrets between two rounds.
pub mod Visits
pub mod Rounds
pub mod Creates
pub mod Refresh
use kube_aws_iam_controller.Base.Tests.{
  ◌≡◌, refl, ap, true, false, Option, some, ◌⊎◌, inl, inr, arith, Bool-cases,
}
use kube_aws_iam_controller.Base.Lists.{List, [], ◌∷◌, ◌++◌, Member}
use kube_aws_iam_controller.Base.Text.{Text, text_eq_iff}
use kube_aws_iam_controller.Base.GoMap.{lookup}
use kube_aws_iam_controller.Kube.Types.{Secret, SecretData}
use kube_aws_iam_controller.Base.Outcome.{ok}
use kube_aws_iam_controller.Kube.Server.{DistinctKeys, Serves}
use kube_aws_iam_controller.RoleStore.{exists}
use kube_aws_iam_controller.RoleStore.Refinement.{exists-add}
use kube_aws_iam_controller.RoleStore.Invariant.{StoreValid}
use kube_aws_iam_controller.SecretFiles.{expires_soon, expire_key, lookup_data}
use kube_aws_iam_controller.SecretsController.Renewal.{
  SecretsController, secret_prefix, owner_labels, role_of, has_owner, get_creds,
}
use kube_aws_iam_controller.SecretsController.{Found, store_found}
use kube_aws_iam_controller.SecretsController.Allowed.{IsUnowned}
use kube_aws_iam_controller.SecretsController.Idle.{IsFresh}

-- There is a secret for the role that nobody owns.
abbrev pub Provided : Text → Text → List Secret → Type 0
Provided role ns held =
    (y : Secret) × Member y held × IsUnowned y × (role_of y ≡ role) × (y.namespace ≡ ns)

-- Where the temporary store has a new entry, it is that of the secret.
new_key :
    (x : Secret) (found : Found) (role ns : Text)
    → exists found.tmp_secret_store role ns ≡ false
    → exists (store_found x found).tmp_secret_store role ns ≡ true
    → (role_of x ≡ role) × (x.namespace ≡ ns)
unfolding store_found
new_key x found role ns new stored = ground (
  arith,
  exists-add found.tmp_secret_store (role_of x) x.namespace [] role ns,
  text_eq_iff (role_of x) role,
  text_eq_iff x.namespace ns,
)

module _ {S : Type 0} (c : SecretsController S) where
  abbrev pub IsUsed : Text → Text → Type 0
  IsUsed role ns = exists c.role_store role ns ≡ true

  -- The credentials are not about to expire, whenever the clock is read.
  abbrev pub IsFreshData : SecretData → Type 0
  IsFreshData d =
      (s : S)
      → (expires_soon c.codec c.client c.refresh_limit (lookup_data expire_key (some d)) s).0
        ≡ false

  -- The credentials of the secret are due, whenever the clock is read.
  abbrev pub IsDue : Secret → Type 0
  IsDue y =
      (s : S)
      → (expires_soon c.codec c.client c.refresh_limit (lookup_data expire_key y.data_map) s).0
        ≡ true

  -- A period of the world in which no other client writes the controller's secrets, credentials are
  -- given for the roles in use and last, the server refuses none of the names of their secrets, and the
  -- namespaces of the pods are those that the controller looks after.
  pub record Calm (Refuses : Text → Text → Type 0) (held : S → List Secret) : Type 0 where
    pub serves : Serves c.client c.namespace owner_labels Refuses held
    pub credentials :
        (role ns : Text) (s : S)
        → IsUsed role ns
        → (d : SecretData) × ((get_creds c role s).0 ≡ ok d)
          × IsFreshData d
          × (held (get_creds c role s).1 ≡ held s)
    pub accepted : (role ns : Text) → IsUsed role ns → ¬ Refuses ns (secret_prefix ++ role)
    pub in_scope : (role ns : Text) → IsUsed role ns → (c.namespace ≡ []) ⊎ (c.namespace ≡ ns)
    pub valid : StoreValid c.role_store

  -- No held secret that somebody owns is for a role in use.
  abbrev pub NoneInTheWay : List Secret → Type 0
  NoneInTheWay secrets =
      (y : Secret)
      → Member y secrets
      → has_owner y ≡ true
      → exists c.role_store (role_of y) y.namespace ≡ false

  -- What holds of the secrets that are listed: no two have the same key, no owned one stands in a
  -- role's way, and none comes due in the period that was not due before.
  pub record IsReady (secrets : List Secret) : Type 0 where
    pub distinct : DistinctKeys secrets
    pub out_of_the_way : NoneInTheWay secrets
    pub decided : (y : Secret) → Member y secrets → IsUnowned y → IsFresh c y ⊎ IsDue y

  -- The secret is for a role in use, and fresh.
  abbrev pub IsSettled : Secret → Type 0
  IsSettled y = IsUsed (role_of y) y.namespace × IsFresh c y

  -- With the rounds of `rest` still to come: the secrets that nobody owns are settled or wait for
  -- their round; an owned secret stands in no role's way; a role in use that was found, or is to be
  -- found, has its secret; the cached credentials are fresh; and the secrets of `rest` are as they were
  -- listed.
  pub record Visited (rest : List Secret) (found : Found) (held : List Secret) : Type 0 where
    pub distinct : DistinctKeys rest
    pub still_there : (y : Secret) → Member y rest → Member y held
    pub settled : (y : Secret) → Member y held → IsUnowned y → IsSettled y ⊎ Member y rest
    pub out_of_the_way : NoneInTheWay held
    pub covered :
        (role ns : Text)
        → IsUsed role ns
        → (exists found.tmp_secret_store role ns ≡ true) ⊎ Provided role ns rest
        → Provided role ns held
    pub cached :
        (role : Text) (d : SecretData) → lookup role found.creds_cache ≡ some d → IsFreshData d

  -- The round of an owned secret.
  pub owned-Visited :
      (x : Secret) (rest : List Secret) (found : Found) (held : List Secret)
      → has_owner x ≡ true
      → Visited (x ∷ rest) found held
      → Visited rest found held
  owned-Visited x rest found held owned v = record {
    distinct = v.distinct.1;
    still_there = λ y mem. v.still_there y (inr mem);
    settled = λ y mem u. elim (v.settled y mem u) [
      | inl good ↦ inl good
      | inr (inl e) ↦ cc (ap has_owner e)
      | inr (inr later) ↦ inr later
    ];
    out_of_the_way = v.out_of_the_way;
    covered = λ role ns used h. v.covered role ns used (elim h [
      | inl stored ↦ inl stored
      | inr (y, mem, u, same, ns_same) ↦ inr (y, inr mem, u, same, ns_same)
    ]);
    cached = v.cached;
  }

  -- A role in use for which the secret, an earlier or a later one was found has its secret.
  covered_after :
      (x : Secret) (rest : List Secret) (found : Found) (held : List Secret)
      → IsUnowned x
      → Visited (x ∷ rest) found held
      → (role ns : Text) → IsUsed role ns
      → (exists (store_found x found).tmp_secret_store role ns ≡ true) ⊎ Provided role ns rest
      → Provided role ns held
  unfolding store_found
  covered_after x rest found held u v role ns used (inr (y, mem, u', same, here)) =
      v.covered role ns used (inr (y, inr mem, u', same, here))
  covered_after x rest found held u v role ns used (inl stored) =
      elim (Bool-cases (exists found.tmp_secret_store role ns)) [
        | inl before ↦ v.covered role ns used (inl before)
        | inr new ↦
            let (same, here) = new_key x found role ns new stored in
            v.covered role ns used (inr (x, inl refl, u, same, here))
      ]
