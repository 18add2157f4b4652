-- ===== src/SecretsController/Settle/Visits.antt =====
-- The rounds of the first loop of `refresh` of secrets_controller.go, over the API server.
use mathlib.Core.Path.{subst}
use kube_aws_iam_controller.Base.Tests.{
  ◌≡◌, refl, sym, ap, ◌∙◌, true, false, some, some-eq, inl, inr, Bool-cases,
}
use kube_aws_iam_controller.Base.Lists.{List, ◌∷◌, Member}
use kube_aws_iam_controller.Base.Text.{Text, text_eq}
use kube_aws_iam_controller.Base.GoMap.{lookup, lookup-insert}
use kube_aws_iam_controller.Kube.Types.{Secret, SecretData}
use kube_aws_iam_controller.Kube.Server.{SameKey, same_key, IsStored, Wrote, Removed}
use kube_aws_iam_controller.RoleStore.{exists}
use kube_aws_iam_controller.SecretsController.Renewal.{
  SecretsController, role_of, has_owner, with_data,
}
use kube_aws_iam_controller.SecretsController.{Found, store_found, cache_data}
use kube_aws_iam_controller.SecretsController.Allowed.{IsUnowned}
use kube_aws_iam_controller.SecretsController.Idle.{IsFresh}
use kube_aws_iam_controller.SecretsController.Settle.{
  IsUsed, IsFreshData, Provided, IsSettled, Visited, covered_after,
}

-- What the name and the owners decide.
pub role_of-cong : (x y : Secret) → x.name ≡ y.name → role_of x ≡ role_of y
unfolding role_of
role_of-cong x y e = rw e refl

pub has_owner-cong :
    (x y : Secret) → x.owner_references ≡ y.owner_references → has_owner x ≡ has_owner y
unfolding has_owner
has_owner-cong x y e = rw e refl

module _ {S : Type 0} (c : SecretsController S) where
  used-cong :
      (x y : Secret)
      → SameKey x y
      → exists c.role_store (role_of x) x.namespace ≡ exists c.role_store (role_of y) y.namespace
  used-cong x y e = rw (role_of-cong x y e.same_name, e.same_namespace) refl

  data-IsFresh : (y : Secret) (d : SecretData) → y.data_map ≡ some d → IsFreshData c d → IsFresh c y
  data-IsFresh y d held fresh s = rw held (fresh s)

  -- A secret that was written for a role in use with fresh credentials.
  pub stored-IsSettled :
      (x y : Secret) (d : SecretData)
      → IsStored x y
      → IsUsed c (role_of x) x.namespace
      → x.data_map ≡ some d
      → IsFreshData c d
      → IsSettled c y
  stored-IsSettled x y d k used held fresh = (
    used-cong y x (record { same_namespace = k.same_namespace; same_name = k.same_name }) ∙ used,
    data-IsFresh y d (k.same_data ∙ held) fresh,
  )

  -- A write of a secret that nobody owns takes no secret from a role.
  pub Provided-Wrote :
      (x : Secret) (held held' : List Secret) (role ns : Text)
      → IsUnowned x
      → Wrote x held held'
      → Provided role ns held
      → Provided role ns held'
  Provided-Wrote x held held' role ns u w (y, mem, u', same, here) = elim (same_key x y) [
    | inl k ↦
        let (z, mem', stored) = w.there in
        (
          z,
          mem',
          has_owner-cong z x stored.same_owners ∙ u,
          role_of-cong z x stored.same_name ∙ role_of-cong x y k.same_name ∙ same,
          stored.same_namespace ∙ k.same_namespace ∙ here,
        )
    | inr other ↦ (y, w.kept y mem other, u', same, here)
  ]

  module _ (x : Secret) (rest : List Secret) (found : Found) (held : List Secret) (u : IsUnowned x)
      (v : Visited c (x ∷ rest) found held) where
    -- A secret for a role in use is not one of the key of an unused one.
    still_used :
        (y : Secret) (role ns : Text)
        → exists c.role_store (role_of x) x.namespace ≡ false
        → IsUsed c role ns
        → role_of y ≡ role
        → y.namespace ≡ ns
        → ¬ ((y.namespace ≡ x.namespace) × (y.name ≡ x.name))
    still_used y role ns unused used same here (ns_same, name_same) =
        let keys =
          used-cong x y (record { same_namespace = sym ns_same; same_name = sym name_same }) in
        let there : exists c.role_store (role_of y) y.namespace ≡ true = rw (same, here) used in cc

    -- The round of a secret that is deleted.
    pub delete-Visited :
        (held' : List Secret)
        → exists c.role_store (role_of x) x.namespace ≡ false
        → Removed x.namespace x.name held held'
        → Visited c rest (store_found x found) held'
    unfolding store_found
    delete-Visited held' unused w = record {
      distinct = v.distinct.1;
      still_there = λ y mem.
          w.kept y (v.still_there y (inr mem))
            (λ (n, m). v.distinct.0 y mem (record { same_namespace = sym n; same_name = sym m }));
      settled = λ y mem u'.
          let (before, other) = w.gone y mem in
          elim (v.settled y before u') [
            | inl good ↦ inl good
            | inr (inl e) ↦ absurd (other (ap (λ z. z.namespace) e, ap (λ z. z.name) e))
            | inr (inr later) ↦ inr later
          ];
      out_of_the_way = λ y mem owned. v.out_of_the_way y (w.gone y mem).0 owned;
      covered = λ role ns used h.
          let (y, mem, u', same, here) = covered_after c x rest found held u v role ns used h in
          (y, w.kept y mem (still_used y role ns unused used same here), u', same, here);
      cached = v.cached;
    }

    -- Data that are cached are fresh.
    caching :
        (d : SecretData)
        → IsFreshData c d
        → (role : Text) (e : SecretData)
        → lookup role (cache_data (role_of x) (some d) (store_found x found)).creds_cache ≡ some e
        → IsFreshData c e
    unfolding cache_data store_found
    caching d fresh role e cached = elim (Bool-cases (text_eq (role_of x) role)) [
      | inl same ↦
          subst (IsFreshData c)
            (some-eq (rw (lookup-insert (role_of x) role d found.creds_cache, same) at cached))
            fresh
      | inr other ↦
          v.cached role e (rw (lookup-insert (role_of x) role d found.creds_cache, other) at cached)
    ]

    -- What was found does not change what is held.
    kept-Visited :
        (found' : Found)
        → found'.tmp_secret_store ≡ (store_found x found).tmp_secret_store
        → ((y : Secret) → Member y held → IsUnowned y → y ≡ x → IsSettled c y)
        → ((role : Text) (d : SecretData)
            → lookup role found'.creds_cache ≡ some d
            → IsFreshData c d)
        → Visited c rest found' held
    kept-Visited found' stored good cached = record {
      distinct = v.distinct.1;
      still_there = λ y mem. v.still_there y (inr mem);
      settled = λ y mem u'. elim (v.settled y mem u') [
        | inl settled ↦ inl settled
        | inr (inl e) ↦ inl (good y mem u' e)
        | inr (inr later) ↦ inr later
      ];
      out_of_the_way = v.out_of_the_way;
      covered =
          λ role ns used h. covered_after c x rest found held u v role ns used (rw (← stored) h);
      cached = cached;
    }

    -- The round of a secret that is not about to expire.
    pub fresh-Visited :
        (d : SecretData)
        → IsUsed c (role_of x) x.namespace
        → IsFresh c x
        → x.data_map ≡ some d
        → Visited c rest (cache_data (role_of x) (some d) (store_found x found)) held
    unfolding cache_data
    fresh-Visited d used fresh held_data =
        kept-Visited (cache_data (role_of x) (some d) (store_found x found)) refl
          (λ y mem u' e. rw e (used, fresh)) (caching d (λ s. rw (← held_data) (fresh s)))

    -- The round of a secret that is renewed.
    pub renew-Visited :
        (held' : List Secret) (d : SecretData)
        → IsUsed c (role_of x) x.namespace
        → IsFreshData c d
        → Wrote (with_data x d) held held'
        → Visited c rest (cache_data (role_of x) (some d) (store_found x found)) held'
    unfolding with_data role_of has_owner cache_data
    renew-Visited held' d used fresh w = record {
      distinct = v.distinct.1;
      still_there = λ y mem. w.kept y (v.still_there y (inr mem)) (λ k.
          v.distinct.0 y mem
            (record { same_namespace = k.same_namespace; same_name = k.same_name }));
      settled = λ y mem u'. elim (w.new_or_old y mem) [
        | inl k ↦ inl (stored-IsSettled (with_data x d) y d k used refl fresh)
        | inr (before, other) ↦ elim (v.settled y before u') [
          | inl good ↦ inl good
          | inr (inl e) ↦ absurd (
              other (record {
                same_namespace = ap (λ z. z.namespace) (sym e);
                same_name = ap (λ z. z.name) (sym e);
              }))
          | inr (inr later) ↦ inr later
        ]
      ];
      out_of_the_way = λ y mem owned. elim (w.new_or_old y mem) [
        | inl k ↦ let owners = has_owner-cong y x k.same_owners in cc
        | inr (before, other) ↦ v.out_of_the_way y before owned
      ];
      covered = λ role ns used' h.
          Provided-Wrote (with_data x d) held held' role ns u w
            (covered_after c x rest found held u v role ns used' h);
      cached = caching d fresh;
    }
