-- ===== src/SecretsController/Settle/Creates.antt =====
-- The loops of `refresh` of secrets_controller.go that create secrets: they keep what the first loop
-- has brought about, and leave a secret for every role in use.
use kube_aws_iam_controller.Base.Tests.{
  ◌≡◌, refl, sym, ◌∙◌, true, some, inl, inr, Bool-cases, Option-cases,
}
use kube_aws_iam_controller.Base.Lists.{List, [], Member}
use kube_aws_iam_controller.Base.Text.{Text, trim_prefix-append}
use kube_aws_iam_controller.Base.GoMap.{lookup}
use kube_aws_iam_controller.Base.Flow.{next, done, ◌>>=◌}
use kube_aws_iam_controller.Base.Flow.Rounds.{
  Rounds, AllDone, for_each-AllDone, attempt_of_ok, attempt_of_err,
}
use kube_aws_iam_controller.Kube.Types.{Secret, SecretData}
use kube_aws_iam_controller.Kube.Server.{SameKey, Wrote, IsSelected}
use kube_aws_iam_controller.RoleStore.{Pods, Namespaces, exists}
use kube_aws_iam_controller.SecretsController.Renewal.{
  SecretsController, secret_prefix, owner_labels, role_of, has_owner, get_creds, new_secret,
  create_secret,
}
use kube_aws_iam_controller.SecretsController.{Found, cached_creds, create_in, create_for_role}
use kube_aws_iam_controller.SecretsController.Allowed.{IsUnowned}
use kube_aws_iam_controller.SecretsController.Allowed.Refresh.{
  exists_of_Member, some_namespace, valid_entry,
}
use kube_aws_iam_controller.SecretsController.Idle.{AllInUse}
use kube_aws_iam_controller.SecretsController.Settle.{
  Provided, IsUsed, IsFreshData, NoneInTheWay, Calm, Visited,
}
use kube_aws_iam_controller.SecretsController.Settle.Visits.{
  stored-IsSettled, Provided-Wrote, has_owner-cong, role_of-cong,
}

-- A new secret is for its role, and nobody owns it.
role_of-new_secret : (role ns : Text) (d : SecretData) → role_of (new_secret role ns d) ≡ role
unfolding role_of new_secret
role_of-new_secret role ns d = trim_prefix-append secret_prefix role

new_secret-IsUnowned : (role ns : Text) (d : SecretData) → IsUnowned (new_secret role ns d)
unfolding has_owner new_secret
new_secret-IsUnowned role ns d = refl

-- A role that has its secret keeps it.
abbrev pub KeepsProvided : List Secret → List Secret → Type 0
KeepsProvided before after = (role ns : Text) → Provided role ns before → Provided role ns after

module _ {S : Type 0} (c : SecretsController S) where
  -- What the first loop has brought about.
  pub record Cleared (found : Found) (secrets : List Secret) : Type 0 where
    pub in_use : AllInUse c secrets
    pub out_of_the_way : NoneInTheWay c secrets
    pub covered :
        (role ns : Text)
        → IsUsed c role ns
        → exists found.tmp_secret_store role ns ≡ true
        → Provided role ns secrets

  pub Visited-Cleared :
      (found : Found) (secrets : List Secret) → Visited c [] found secrets → Cleared found secrets
  Visited-Cleared found secrets v = record {
    in_use =
        λ y mem u. elim (v.settled y mem u) [ inl good ↦ good | inr none_left ↦ absurd none_left ];
    out_of_the_way = v.out_of_the_way;
    covered = λ role ns used stored. v.covered role ns used (inl stored);
  }

  new_secret-Cleared :
      (found : Found) (role ns : Text) (d : SecretData) (before after : List Secret)
      → IsUsed c role ns
      → IsFreshData c d
      → Wrote (new_secret role ns d) before after
      → Cleared found before
      → Cleared found after
  unfolding new_secret has_owner
  new_secret-Cleared found role ns d before after used fresh w h =
      let x = new_secret role ns d in
      let used' : IsUsed c (role_of x) ns = rw (role_of-new_secret role ns d) used in
      record {
        in_use = λ y mem u. elim (w.new_or_old y mem) [
          | inl k ↦ stored-IsSettled c x y d k used' refl fresh
          | inr (old, other) ↦ h.in_use y old u
        ];
        out_of_the_way = λ y mem owned. elim (w.new_or_old y mem) [
          | inl k ↦ let owners = has_owner-cong y x k.same_owners in cc
          | inr (old, other) ↦ h.out_of_the_way y old owned
        ];
        covered = λ r n used stored.
            Provided-Wrote c x before after r n refl w (h.covered r n used stored);
      }

  -- The secret that was written, or the one of the same key that was held.
  new_secret-Provided :
      (role ns : Text) (d : SecretData) (before after : List Secret)
      → Wrote (new_secret role ns d) before after
      → Provided role ns after
  unfolding new_secret
  new_secret-Provided role ns d before after w =
      let x = new_secret role ns d in
      let (y, mem, stored) = w.there in
      (
        y,
        mem,
        has_owner-cong y x stored.same_owners ∙ new_secret-IsUnowned role ns d,
        role_of-cong y x stored.same_name ∙ role_of-new_secret role ns d,
        stored.same_namespace,
      )

  held-Provided :
      (found : Found) (role ns : Text) (d : SecretData) (secrets : List Secret) (y : Secret)
      → IsUsed c role ns
      → Cleared found secrets
      → Member y secrets
      → SameKey (new_secret role ns d) y
      → Provided role ns secrets
  unfolding new_secret
  held-Provided found role ns d secrets y used h mem k =
      let same =
        sym (role_of-cong (new_secret role ns d) y k.same_name) ∙ role_of-new_secret role ns d in
      let there : IsUsed c (role_of y) y.namespace = rw (same, ← k.same_namespace) used in
      elim (Bool-cases (has_owner y)) [
        | inl owned ↦ let free = h.out_of_the_way y mem owned in cc
        | inr u ↦ (y, mem, u, same, sym k.same_namespace)
      ]

  module _ (Refuses : Text → Text → Type 0) (held : S → List Secret) (calm : Calm c Refuses held)
      (found : Found) where
    abbrev Sound : S → Type 0
    Sound s = Cleared found (held s)

    abbrev Onward : S → S → Type 0
    Onward s t = KeepsProvided (held s) (held t)

    new_secret-IsSelected :
        (role ns : Text) (d : SecretData)
        → IsUsed c role ns
        → IsSelected c.namespace owner_labels (new_secret role ns d)
    unfolding new_secret
    new_secret-IsSelected role ns d used = record {
      in_scope = calm.in_scope role ns used;
      labelled = λ k v h. h;
    }

    abbrev Made : Text → Text × Pods → S → Type 0
    Made role (ns, pods) s = Provided role ns (held s)

    create_in-Rounds :
        (role : Text) (d : SecretData) (ns : Text) (pods : Pods) (s : S)
        → IsUsed c role ns
        → IsFreshData c d
        → Sound s
        → Rounds Sound Onward (Made role) (create_in c found role d) (ns, pods) s
    unfolding create_in create_secret done new_secret
    create_in-Rounds role d ns pods s used fresh h =
        let create = c.client.create_secret ns (new_secret role ns d) in
        elim (Bool-cases (exists found.tmp_secret_store role ns)) [
          | inl there ↦ record {
            after = s;
            over = rw there (inl refl);
            sound = h;
            grown = λ r n p. p;
            achieved = h.covered role ns used there;
          }
          | inr new ↦
              elim (calm.serves.creates s (new_secret role ns d)
                (new_secret-IsSelected role ns d used)) [
                  | inl (accepted, w) ↦ record {
                    after = (create s).1;
                    over = rw new (inl (attempt_of_ok create (λ e s. s) s tt accepted));
                    sound = new_secret-Cleared found role ns d (held s) _ used fresh w h;
                    grown = λ r n p.
                        Provided-Wrote c (new_secret role ns d) (held s) _ r n
                          (new_secret-IsUnowned role ns d) w p;
                    achieved = new_secret-Provided role ns d (held s) _ w;
                  }
                  | inr (e, refused, inr invalid, unchanged) ↦
                      absurd (calm.accepted role ns used invalid)
                  | inr (e, refused, inl (y, mem, k), unchanged) ↦ record {
                    after = (create s).1;
                    over = rw new (inr (attempt_of_err create (λ e s. s) s e refused));
                    sound = rw unchanged h;
                    grown = λ r n p. rw unchanged p;
                    achieved = rw unchanged (held-Provided found role ns d (held s) y used h mem k);
                  }
                ]
        ]

    create_all-AllDone :
        (role : Text) (d : SecretData) (namespaces : Namespaces) (s : S)
        → ((ns : Text) (pods : Pods) → Member (ns, pods) namespaces → IsUsed c role ns)
        → IsFreshData c d
        → Sound s
        → AllDone Sound Onward (Made role) namespaces (create_in c found role d) s
    create_all-AllDone role d namespaces s used fresh h =
        for_each-AllDone Sound Onward (Made role) (λ s r n p. p)
          (λ r s t g k role ns p. k role ns (g role ns p)) (λ (ns, pods) s t g p. g role ns p)
          namespaces (create_in c found role d) s
          (λ (ns, pods) mem t k. create_in-Rounds role d ns pods t (used ns pods mem) fresh k) h

    -- The credentials of a role in use: those of a secret that was found, or new ones.
    cached_creds-fresh :
        (role ns : Text) (s : S)
        → IsUsed c role ns
        → ((d : SecretData) → lookup role found.creds_cache ≡ some d → IsFreshData c d)
        → (d : SecretData) × (s' : S) × (cached_creds c role (lookup role found.creds_cache) s
            ≡ (next d, s'))
          × IsFreshData c d
          × (held s' ≡ held s)
    unfolding cached_creds done
    cached_creds-fresh role ns s used fresh = elim (Option-cases (lookup role found.creds_cache)) [
      | inl missing ↦
          let (d, got, new, same) = calm.credentials role ns s used in
          (
            d,
            (get_creds c role s).1,
            rw missing (attempt_of_ok (get_creds c role) (λ e s. s) s d got),
            new,
            same,
          )
      | inr (d, there) ↦ (d, s, rw there refl, fresh d there, refl)
    ]

    abbrev Served : Text × Namespaces → S → Type 0
    Served (role, namespaces) s =
        (ns : Text) (pods : Pods) → Member (ns, pods) namespaces → Provided role ns (held s)

    create_for_role-Rounds :
        (role : Text) (namespaces : Namespaces) (s : S)
        → Member (role, namespaces) c.role_store.store
        → ((d : SecretData) → lookup role found.creds_cache ≡ some d → IsFreshData c d)
        → Sound s
        → Rounds Sound Onward Served (create_for_role c found) (role, namespaces) s
    unfolding create_for_role ◌>>=◌
    create_for_role-Rounds role namespaces s mem fresh h =
        let used : (ns : Text) (pods : Pods) → Member (ns, pods) namespaces → IsUsed c role ns =
          λ ns pods m. exists_of_Member c.role_store role namespaces ns pods calm.valid mem m in
        let ((ns, pods), m) =
          some_namespace namespaces (valid_entry c.role_store role namespaces calm.valid mem) in
        let (d, s', got, new, same) = cached_creds-fresh role ns s (used ns pods m) fresh in
        let all = create_all-AllDone role d namespaces s' used new (rw same h) in
        record {
          after = all.after;
          over = inl (rw got all.over);
          sound = all.sound;
          grown = λ r n p. all.grown r n (rw same p);
          achieved = λ ns pods m. all.achieved (ns, pods) m;
        }

    pub create_loops-AllDone :
        (s : S)
        → ((role : Text) (d : SecretData)
            → lookup role found.creds_cache ≡ some d
            → IsFreshData c d)
        → Sound s
        → AllDone Sound Onward Served c.role_store.store (create_for_role c found) s
    create_loops-AllDone s fresh h =
        for_each-AllDone Sound Onward Served (λ s r n p. p)
          (λ r s t g k role ns p. k role ns (g role ns p))
          (λ (role, namespaces) s t g p ns pods m. g role ns (p ns pods m)) c.role_store.store
          (create_for_role c found) s
          (λ (role, namespaces) mem t k.
            create_for_role-Rounds role namespaces t mem (fresh role) k)
          h
