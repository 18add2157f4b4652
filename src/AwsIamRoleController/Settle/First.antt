-- ===== src/AwsIamRoleController/Settle/First.antt =====
-- The first loop of `refresh` of awsiamrole_controller.go in a calm period.
use kube_aws_iam_controller.Base.Tests.{
  ◌≡◌, refl, sym, ap, ◌∙◌, none, ◌⊎◌, inl, inr, Bool-cases, Option-cases,
}
use kube_aws_iam_controller.Base.Lists.{
  List, [], ◌∷◌, ◌++◌, Member, Member-append, Member-last, Member-appended,
}
use kube_aws_iam_controller.Base.Text.{Text}
use kube_aws_iam_controller.Base.GoMap.Index.{DistinctKeys}
use kube_aws_iam_controller.Base.Flow.{Flow, next, done}
use kube_aws_iam_controller.Base.Flow.Rounds.{Over, next_round-Over}
use kube_aws_iam_controller.Kube.Types.{Secret, AwsIamRole}
use kube_aws_iam_controller.Kube.Server.{IsSelected, Wrote-keeps}
use kube_aws_iam_controller.SecretFiles.{expires_soon, expire_key, lookup_data}
use kube_aws_iam_controller.SecretFiles.Expiry.{expires_soon-view}
use kube_aws_iam_controller.AwsIamRoleController.Renewal.{
  AwsIamRoleController, aws_iam_role_owner_labels, renewed_secret, refresh_secret, renew,
}
use kube_aws_iam_controller.AwsIamRoleController.{
  secret_key, role_key, roles_map, owner_of, refresh_secrets,
}
use kube_aws_iam_controller.AwsIamRoleController.Secrets.{renewed_secret-IsCurrent}
use kube_aws_iam_controller.AwsIamRoleController.Idle.{IsFresh}
use kube_aws_iam_controller.AwsIamRoleController.Settle.{Owns, Calm, Fits}
use kube_aws_iam_controller.AwsIamRoleController.Settle.Statuses.{
  Mirrors, Stays, same-Stays, Stays-trans,
}
use kube_aws_iam_controller.AwsIamRoleController.Settle.Calls.{Kept}
use kube_aws_iam_controller.AwsIamRoleController.Settle.Writes.{Renewed, renew-Renewed}
use kube_aws_iam_controller.AwsIamRoleController.Settle.Good.{
  SameKey-key, IsGood, NonePending, Stays-IsGood, stored-Owns, owner_of-Owns,
}

module _ {S : Type 0} (c : AwsIamRoleController S) (Refuses : Text → Text → Type 0)
    (held : S → List Secret) (roles : S → List AwsIamRole) (calm : Calm c Refuses held roles)
    (secrets : List Secret) (listed : List AwsIamRole) (distinct : DistinctKeys role_key listed)
    (fits : Fits c Refuses secrets listed)
    (selected : (x : Secret)
      → Member x secrets
      → IsSelected c.namespace aws_iam_role_owner_labels x) where
  abbrev Good : Secret → S → Type 0
  Good = IsGood c held roles secrets listed (NonePending c held roles secrets listed)

  -- With the rounds of `rest` still to come: what is held is good, waits for its round or is an orphan;
  -- no key was lost; the secrets of `rest` are as they were listed; and the orphans are listed secrets
  -- without an owner.
  pub record Renewing (rest orphans : List Secret) (s : S) : Type 0 where
    pub mirrors : Mirrors c held roles listed s
    pub sorted : (y : Secret) → Member y (held s) → Good y s ⊎ (Member y rest ⊎ Member y orphans)
    pub apart : DistinctKeys secret_key rest
    pub still_there : (x : Secret) → Member x rest → Member x (held s)
    pub kept : (x : Secret) → Member x secrets → Kept held x s
    pub orphaned :
        (x : Secret) → Member x orphans → Member x secrets × (owner_of (roles_map listed) x ≡ none)

  -- The round of a secret without an owner.
  gather-Renewing :
      (x : Secret) (rest orphans : List Secret) (s : S)
      → Member x secrets
      → owner_of (roles_map listed) x ≡ none
      → Renewing (x ∷ rest) orphans s
      → Renewing rest (orphans ++ x ∷ []) s
  gather-Renewing x rest orphans s mem e h = record {
    mirrors = h.mirrors;
    sorted = λ y mem'. elim (h.sorted y mem') [
      | inl good ↦ inl good
      | inr (inl (inl same)) ↦ inr (inr (rw same (Member-last x orphans)))
      | inr (inl (inr later)) ↦ inr (inl later)
      | inr (inr orphan) ↦ inr (inr (Member-append y orphans (x ∷ []) orphan))
    ];
    apart = h.apart.1;
    still_there = λ y mem'. h.still_there y (inr mem');
    kept = h.kept;
    orphaned = λ y mem'. elim (Member-appended y orphans x mem') [
      | inl before ↦ h.orphaned y before
      | inr same ↦ rw same (mem, e)
    ];
  }

  -- The round of a secret that is not about to expire.
  fresh-Renewing :
      (role : AwsIamRole) (x : Secret) (rest orphans : List Secret) (s t : S)
      → Member x secrets
      → Member role listed
      → Owns role x
      → IsFresh c x
      → held t ≡ held s
      → roles t ≡ roles s
      → Renewing (x ∷ rest) orphans s
      → Renewing rest orphans t
  fresh-Renewing role x rest orphans s t mem listed_role owns fresh e e' h = record {
    mirrors = (same-Stays c held roles listed s t e' h.mirrors).mirrors;
    sorted = λ y mem'. elim (h.sorted y (rw (← e) mem')) [
      | inl good ↦ inl (
          Stays-IsGood c held roles secrets listed (NonePending c held roles secrets listed) y s t
            (same-Stays c held roles listed s t e' h.mirrors) good)
      | inr (inl (inl same)) ↦ inl (rw same (role, listed_role, owns, fresh, inl mem))
      | inr (inl (inr later)) ↦ inr (inl later)
      | inr (inr orphan) ↦ inr (inr orphan)
    ];
    apart = h.apart.1;
    still_there = λ y mem'. rw e (h.still_there y (inr mem'));
    kept = λ y mem'. rw e (h.kept y mem');
    orphaned = h.orphaned;
  }

  -- The round of a secret that is renewed.
  renew-Renewing :
      (role : AwsIamRole) (x : Secret) (rest orphans : List Secret) (s t : S)
      (r : Flow (Unit {0}) × S)
      → Member x secrets
      → Member role listed
      → Owns role x
      → Renewing (x ∷ rest) orphans s
      → held t ≡ held s
      → Stays c held roles listed s t
      → (n : Renewed c held roles listed role x t r) → Renewing rest orphans n.after
  unfolding renewed_secret
  renew-Renewing role x rest orphans s t r mem_x mem (same, owned) h e stays n =
      let (scope, free, u, bounded) = fits.in_scope role mem in
      let w = renewed_secret role x n.secret_data in
      let current = renewed_secret-IsCurrent role x n.secret_data u bounded (sym same) owned in
      record {
        mirrors = n.stays.mirrors;
        sorted = λ y mem'. elim (n.wrote.new_or_old y mem') [
          | inl k ↦
              let (owns, fresh, gen) =
                stored-Owns c held roles secrets listed role w y n.secret_data current refl n.fresh
                  k in
              let key : secret_key y ≡ role_key role = sym owns.0 in
              inl (role, mem, owns, fresh, inr (gen, inl (rw key n.seen)))
          | inr (before, other) ↦ elim (h.sorted y (rw (← e) before)) [
            | inl good ↦ inl (
                Stays-IsGood c held roles secrets listed (NonePending c held roles secrets listed) y
                  s n.after (Stays-trans c held roles listed s t n.after stays n.stays) good)
            | inr (inl (inl here)) ↦ absurd (
                other (record {
                  same_namespace = ap (λ z. z.namespace) (sym here);
                  same_name = ap (λ z. z.name) (sym here);
                }))
            | inr (inl (inr later)) ↦ inr (inl later)
            | inr (inr orphan) ↦ inr (inr orphan)
          ]
        ];
        apart = h.apart.1;
        still_there = λ y mem'.
            n.wrote.kept y (rw e (h.still_there y (inr mem')))
              (λ k. h.apart.0 y mem' (sym (SameKey-key w y k)));
        kept = λ y mem'. Wrote-keeps w y (held t) (held n.after) n.wrote (rw e (h.kept y mem'));
        orphaned = h.orphaned;
      }

  refresh_secret-Renewing :
      (role : AwsIamRole) (x : Secret) (rest orphans : List Secret) (s : S)
      → Member x secrets
      → Member role listed
      → Owns role x
      → Renewing (x ∷ rest) orphans s
      → (t : S) × Over tt t (refresh_secret c role x s) × Renewing rest orphans t
  unfolding refresh_secret done
  refresh_secret-Renewing role x rest orphans s mem listed_role owns h =
      let text = lookup_data expire_key x.data_map in
      let s1 = (expires_soon c.codec c.client c.refresh_limit text s).1 in
      let same =
        expires_soon-view c.codec c.client c.refresh_limit held calm.serves.reads_clock text s in
      let same' =
        expires_soon-view c.codec c.client c.refresh_limit roles calm.serves_roles.clock_keeps text
          s in
      elim (Bool-cases (expires_soon c.codec c.client c.refresh_limit text s).0) [
        | inl due ↦
            let stays = same-Stays c held roles listed s s1 same' h.mirrors in
            let n =
              renew-Renewed c Refuses held roles calm secrets listed distinct fits role x s1
                stays.mirrors listed_role owns (selected x mem)
                (rw same (h.still_there x (inl refl))) in
            (
              n.after,
              rw due n.over,
              renew-Renewing role x rest orphans s s1 (renew c role x s1) mem listed_role owns h
                  same stays n,
            )
        | inr fresh ↦ elim (fits.decided x mem) [
          | inl lasting ↦ (
            s1,
            rw fresh (inl refl),
            fresh-Renewing role x rest orphans s s1 mem listed_role owns lasting same same' h,
          )
          | inr due ↦ let now = due s in absurd cc
        ]
      ]

  -- The whole loop.
  pub refresh_secrets-Renewing :
      (rest orphans : List Secret) (s : S)
      → ((x : Secret) → Member x rest → Member x secrets)
      → Renewing rest orphans s
      → (orphans' : List Secret) × (t : S) × (refresh_secrets c (roles_map listed) rest orphans s
          ≡ (next orphans', t))
        × Renewing [] orphans' t
  unfolding refresh_secrets
  refresh_secrets-Renewing [] orphans s sub h = (orphans, s, refl, h)
  refresh_secrets-Renewing (x ∷ rest) orphans s sub h =
      let mem = sub x (inl refl) in
      elim (Option-cases (owner_of (roles_map listed) x)) [
        | inl e ↦
            let (orphans', t, e', h') =
              refresh_secrets-Renewing rest (orphans ++ x ∷ []) s (λ y m. sub y (inr m))
                (gather-Renewing x rest orphans s mem e h) in
            (orphans', t, rw (e, refresh_secrets) e', h')
        | inr (role, e) ↦
            let (listed_role, owns) = owner_of-Owns listed x role e in
            let (s1, over, h1) =
              refresh_secret-Renewing role x rest orphans s mem listed_role owns h in
            let (orphans', t, e', h') =
              refresh_secrets-Renewing rest orphans s1 (λ y m. sub y (inr m)) h1 in
            (
              orphans',
              t,
              rw (e, refresh_secrets)
                  (next_round-Over s1 (refresh_secret c role x s)
                      (refresh_secrets c (roles_map listed) rest orphans) over
                    ∙ e'),
              h',
            )
      ]
