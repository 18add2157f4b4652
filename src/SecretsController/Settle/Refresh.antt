-- ===== src/SecretsController/Settle/Refresh.antt =====
-- `refresh` of secrets_controller.go over an API server that no other client writes to: what it leaves,
-- and that the next one has nothing to do.
use kube_aws_iam_controller.Base.Tests.{◌≡◌, refl, true, inl, inr, Option-cases}
use kube_aws_iam_controller.Base.Lists.{List, [], Member, All_of_members}
use kube_aws_iam_controller.Base.Outcome.{ok}
use kube_aws_iam_controller.Base.Text.{Text}
use kube_aws_iam_controller.Base.GoMap.{lookup, Member-of_lookup}
use kube_aws_iam_controller.Base.Flow.{◌>>=◌}
use kube_aws_iam_controller.Kube.Types.{Secret}
use kube_aws_iam_controller.RoleStore.{
  RoleStore, Pods, Namespaces, new_role_store, exists_in, exists,
}
use kube_aws_iam_controller.SecretsController.Renewal.{SecretsController}
use kube_aws_iam_controller.SecretsController.{
  nothing_found, finish, reconcile, with_secrets, refresh,
}
use kube_aws_iam_controller.SecretsController.Calls.{with_record}
use kube_aws_iam_controller.SecretsController.Idle.{AllInUse, AllProvided, refresh-idle_in_use}
use kube_aws_iam_controller.SecretsController.Settle.{NoneInTheWay, Calm, IsReady, Visited}
use kube_aws_iam_controller.SecretsController.Settle.Rounds.{visit_all-Going}
use kube_aws_iam_controller.SecretsController.Settle.Creates.{Visited-Cleared, create_loops-AllDone}

-- The entry of a role in use, and that of the namespace.
entry_of_exists :
    (store : RoleStore) (role ns : Text)
    → exists store role ns ≡ true
    → (namespaces : Namespaces) × (pods : Pods) × Member (role, namespaces) store.store
      × Member (ns, pods) namespaces
unfolding exists exists_in
entry_of_exists store role ns used = elim (Option-cases (lookup role store.store)) [
  | inl missing ↦ absurd (cc (rw missing at used))
  | inr (namespaces, found) ↦ elim (Option-cases (lookup ns namespaces)) [
    | inl missing ↦ absurd (cc (rw (found, missing) at used))
    | inr (pods, found') ↦ (
      namespaces,
      pods,
      Member-of_lookup role namespaces store.store found,
      Member-of_lookup ns pods namespaces found',
    )
  ]
]

-- The held secrets are as the roles in use want them.
abbrev pub Settled : {S : Type 0} → SecretsController S → (S → List Secret) → S → Type 0
Settled c held s = AllInUse c (held s) × AllProvided c (held s) × NoneInTheWay c (held s)

module _ {S : Type 0} (c : SecretsController S) (Refuses : Text → Text → Type 0)
    (held : S → List Secret) (calm : Calm c Refuses held) where
  nothing_found-Visited : (s : S) → IsReady c (held s) → Visited c (held s) nothing_found (held s)
  unfolding exists exists_in lookup new_role_store
  nothing_found-Visited s ready = record {
    distinct = ready.distinct;
    still_there = λ y mem. mem;
    settled = λ y mem u. inr mem;
    out_of_the_way = ready.out_of_the_way;
    covered = λ role ns used h. elim h [ inl stored ↦ absurd (cc stored) | inr there ↦ there ];
    cached = λ role d there. absurd (cc there);
  }

  reconcile-Settled :
      (s : S)
      → IsReady c (held s)
      → (s' : S) × (reconcile c (held s) s ≡ (ok tt, s')) × Settled c held s'
  unfolding reconcile finish ◌>>=◌
  reconcile-Settled s ready =
      let listed = All_of_members (held s) (calm.serves.selected s) in
      let first =
        visit_all-Going c Refuses held calm (held s) nothing_found s listed ready.decided
          (nothing_found-Visited s ready) in
      let all =
        create_loops-AllDone c Refuses held calm first.found first.after first.visited.cached
          (Visited-Cleared c first.found (held first.after) first.visited) in
      (
        all.after,
        rw (first.goes_on, all.over) refl,
        (
          all.sound.in_use,
          λ role ns used.
              let (namespaces, pods, mem, mem') = entry_of_exists c.role_store role ns used in
              all.achieved (role, namespaces) mem ns pods mem',
          all.sound.out_of_the_way,
        ),
      )

  -- While no other client writes the secrets, credentials are given for every role in use and last,
  -- the server refuses no name of a secret for a role in use, and the namespaces in use are in the
  -- scope of the controller: if the listed secrets have different keys, none that somebody owns is for a
  -- role in use, and none that nobody owns comes due in the meantime, then `refresh` succeeds.
  -- Afterwards every held secret that nobody owns is for a role in use in its namespace with
  -- credentials that are not about to expire, every role in use in a namespace has such a secret
  -- there, and still no secret that somebody owns is for a role in use. The role store is well formed.
  pub refresh-Settled :
      (s : S) → IsReady c (held s) → (s' : S) × (refresh c s ≡ (ok tt, s')) × Settled c held s'
  unfolding refresh with_secrets
  refresh-Settled s ready = rw (calm.serves.lists s) (reconcile-Settled s ready)

  -- While no other client writes the secrets, credentials are given for every role in use and last,
  -- the server refuses no name of a secret for a role in use, the namespaces in use are in the scope of
  -- the controller, and the role store is well formed: if the secrets that the first `refresh` lists have
  -- different keys, none that somebody owns is for a role in use, and none that nobody owns comes due
  -- in the meantime, then the `refresh` that comes after it succeeds, asks for no credentials and
  -- writes nothing.
  pub refresh-twice :
      (s : S)
      → IsReady c (held s)
      → let s' = (refresh c s).1 in
        (s'' : S) × (refresh (with_record c) (s', []) ≡ (ok tt, (s'', [])))
  refresh-twice s ready =
      let (s', e, (in_use, provided, clear')) = refresh-Settled s ready in
      rw e (refresh-idle_in_use c s' s' (held s') (calm.serves.lists s') calm.valid in_use provided)
