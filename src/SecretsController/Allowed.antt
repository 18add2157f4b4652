-- ===== src/SecretsController/Allowed.antt =====
-- What `refresh` of secrets_controller.go may send, for the secrets that were listed.
pub mod Refresh
use kube_aws_iam_controller.Base.Tests.{
  ◌≡◌, ◌≢◌, refl, ap, true, false, Option, none, some, ◌⊎◌, inl, inr, arith, Bool-cases,
}
use kube_aws_iam_controller.Base.Lists.{List, [], ◌∷◌, All, Member}
use kube_aws_iam_controller.Base.Text.{Text, text_eq_refl}
use kube_aws_iam_controller.Base.Flow.{Flow, next, skip, crash, done, ◌>>=◌}
use kube_aws_iam_controller.Base.Flow.Keeps.{bind-ensures}
use kube_aws_iam_controller.Kube.Types.{Secret, SecretData}
use kube_aws_iam_controller.Kube.Recorded.{
  Sent, updated, created, deleted, status_updated, event_recorded, asked, World, OfLog,
}
use kube_aws_iam_controller.RoleStore.{RoleStore, exists, add}
use kube_aws_iam_controller.RoleStore.Refinement.{exists-add}
use kube_aws_iam_controller.SecretsController.Renewal.{
  SecretsController, role_of, has_owner, with_data, new_secret, session_duration, delete_unused,
  refresh_secret,
}
use kube_aws_iam_controller.SecretsController.{
  Found, store_found, cache_data, after_refresh, after_delete, visit, visit_all,
}
use kube_aws_iam_controller.SecretsController.Calls.{
  with_record, delete_unused-Keeps, refresh_secret-Keeps,
}

-- The controller takes the secret for its own: nobody owns it.
abbrev pub IsUnowned : Secret → Type 0
IsUnowned secret = has_owner secret ≡ false

-- No secret of the role was listed in the namespace.
abbrev pub HasNoSecret : List Secret → Text → Text → Type 0
HasNoSecret secrets role ns =
    (secret : Secret)
    → Member secret secrets
    → IsUnowned secret
    → role_of secret ≡ role
    → secret.namespace ≢ ns

module _ (secrets : List Secret) (store : RoleStore) where
  -- A secret is deleted only if nobody owns it and its role is not in use in its namespace, and
  -- updated only if the role is in use, with nothing but its data changed; a secret is created for
  -- a role in use in a namespace without one; credentials are asked for roles in use. No status is
  -- written and no event recorded.
  abbrev pub Allowed : Sent → Type 0
  Allowed (deleted namespace name) =
      (secret : Secret) × Member secret secrets
      × (namespace ≡ secret.namespace)
      × (name ≡ secret.name)
      × IsUnowned secret
      × (exists store (role_of secret) secret.namespace ≡ false)
  Allowed (updated namespace written) =
      (secret : Secret) × (secret_data : SecretData) × Member secret secrets
      × (namespace ≡ secret.namespace)
      × IsUnowned secret
      × (exists store (role_of secret) secret.namespace ≡ true)
      × (written ≡ with_data secret secret_data)
  Allowed (created namespace written) =
      (role : Text) × (secret_data : SecretData) × (exists store role namespace ≡ true)
      × HasNoSecret secrets role namespace
      × (written ≡ new_secret role namespace secret_data)
  Allowed (status_updated namespace written) = ⊥
  Allowed (event_recorded role event) = ⊥
  Allowed (asked role duration) =
      (ns : Text) × (exists store role ns ≡ true) × (duration ≡ session_duration)

  abbrev pub Log : List Sent → Type 0
  Log = All Allowed

-- The secrets of a kind that nobody owns are in the temporary store.
abbrev pub Covers : Found → (Secret → Type 0) → Type 0
Covers found Q =
    (secret : Secret)
    → Q secret
    → IsUnowned secret
    → exists found.tmp_secret_store (role_of secret) secret.namespace ≡ true

store_found-Covers :
    (secret : Secret) (found : Found) (Q : Secret → Type 0)
    → Covers found Q
    → Covers (store_found secret found) (λ s. Q s ⊎ (s ≡ secret))
unfolding store_found
store_found-Covers secret found Q h s (inl q) u = rw (exists-add, h s q u) (ground arith)
store_found-Covers secret found Q h s (inr e) u = rw (exists-add, e, text_eq_refl, text_eq_refl)

owned-Covers :
    (secret : Secret) (found : Found) (Q : Secret → Type 0)
    → has_owner secret ≡ true
    → Covers found Q
    → Covers found (λ s. Q s ⊎ (s ≡ secret))
owned-Covers secret found Q owned h s (inl q) u = h s q u
owned-Covers secret found Q owned h s (inr e) u = cc (ap has_owner e)

cache_data-Covers :
    (role : Text) (data_map : Option SecretData) (found : Found) (Q : Secret → Type 0)
    → Covers found Q
    → Covers (cache_data role data_map found) Q
unfolding cache_data
cache_data-Covers role none found Q h = h
cache_data-Covers role (some d) found Q h = h

-- What one round of the first loop, or all of them, leave.
abbrev pub CoversIn : (Secret → Type 0) → Flow Found → Type 0
CoversIn Q (next found) = Covers found Q
CoversIn Q skip = Unit
CoversIn Q crash = Unit

abbrev pub Ends :
    {S : Type 0} → List Secret → RoleStore → (Secret → Type 0) → Flow Found × World S → Type 0
Ends secrets store Q r = OfLog (Log secrets store) r.1 × CoversIn Q r.0

regroup :
    (found : Found) (Q : Secret → Type 0) (secret : Secret) (rest : List Secret)
    → Covers found (λ s. (Q s ⊎ (s ≡ secret)) ⊎ Member s rest)
    → Covers found (λ s. Q s ⊎ Member s (secret ∷ rest))
regroup found Q secret rest h s (inl q) u = h s (inl (inl q)) u
regroup found Q secret rest h s (inr (inl e)) u = h s (inl (inr e)) u
regroup found Q secret rest h s (inr (inr mem)) u = h s (inr mem) u

regroup_ends :
    (r : Flow Found) (Q : Secret → Type 0) (secret : Secret) (rest : List Secret)
    → CoversIn (λ s. (Q s ⊎ (s ≡ secret)) ⊎ Member s rest) r
    → CoversIn (λ s. Q s ⊎ Member s (secret ∷ rest)) r
regroup_ends (next found) Q secret rest h = regroup found Q secret rest h
regroup_ends skip Q secret rest h = tt
regroup_ends crash Q secret rest h = tt

module _ {S : Type 0} (c : SecretsController S) (secrets : List Secret) where
  after_refresh-Ends :
      (role : Text) (found : Found) (Q : Secret → Type 0) (r : Flow (Option SecretData))
      (w : World S)
      → OfLog (Log secrets c.role_store) w
      → Covers found Q
      → Ends secrets c.role_store Q (after_refresh (with_record c) role found (r, w))
  unfolding after_refresh
  after_refresh-Ends role found Q (next d) w h k = (h, cache_data-Covers role d found Q k)
  after_refresh-Ends role found Q skip w h k = (h, k)
  after_refresh-Ends role found Q crash w h k = (h, tt)

  after_delete-Ends :
      (found : Found) (Q : Secret → Type 0) (r : Flow (Unit {0})) (w : World S)
      → OfLog (Log secrets c.role_store) w
      → Covers found Q
      → Ends secrets c.role_store Q (after_delete (with_record c) found (r, w))
  unfolding after_delete
  after_delete-Ends found Q (next _) w h k = (h, k)
  after_delete-Ends found Q skip w h k = (h, k)
  after_delete-Ends found Q crash w h k = (h, tt)

  visit-Ends :
      (secret : Secret) (found : Found) (w : World S) (Q : Secret → Type 0)
      → Member secret secrets
      → OfLog (Log secrets c.role_store) w
      → Covers found Q
      → Ends secrets c.role_store (λ s. Q s ⊎ (s ≡ secret)) (visit (with_record c) secret found w)
  unfolding visit
  visit-Ends secret found w Q mem h k = elim (Bool-cases (has_owner secret)) [
    | inl owned ↦ rw owned (h, owned-Covers secret found Q owned k)
    | inr unowned ↦
        let role = role_of secret in
        let ns = secret.namespace in
        let found' = store_found secret found in
        let covered = store_found-Covers secret found Q k in
        elim (Bool-cases (exists c.role_store role ns)) [
          | inl used ↦
              let round =
                refresh_secret-Keeps c {P = Log secrets c.role_store} secret
                  (λ log g. ((ns, used, refl), g))
                  (λ d log g. ((secret, d, mem, refl, unowned, used, refl), g)) in
              let (r, w') = refresh_secret (with_record c) secret w in
              rw (unowned, used) (after_refresh-Ends role found' _ r w' (round.at w h) covered)
          | inr unused ↦
              let round =
                delete_unused-Keeps c {P = Log secrets c.role_store} secret
                  (λ log g. ((secret, mem, refl, refl, unowned, unused), g)) in
              let (r, w') = delete_unused (with_record c) secret w in
              rw (unowned, unused) (after_delete-Ends found' _ r w' (round.at w h) covered)
        ]
  ]

  -- The whole first loop, with `Q` for the secrets that were visited before.
  pub visit_all-Ends :
      (rest : List Secret) (found : Found) (w : World S) (Q : Secret → Type 0)
      → All (λ s. Member s secrets) rest
      → OfLog (Log secrets c.role_store) w
      → Covers found Q
      → Ends secrets c.role_store
          (λ s. Q s ⊎ Member s rest)
          (visit_all (with_record c) rest found w)
  unfolding visit_all done
  visit_all-Ends [] found w Q listed h k =
      (h, λ s q u. elim q [ inl q ↦ k s q u | inr no_member ↦ absurd no_member ])
  visit_all-Ends (secret ∷ rest) found w Q (mem, listed) h k =
      let (h', covered) = visit-Ends secret found w Q mem h k in
      bind-ensures (Ends secrets c.role_store (λ s. Q s ⊎ Member s (secret ∷ rest)))
        (visit_all (with_record c) rest) (visit (with_record c) secret found) w
        (λ found' e.
          let covers : Covers found' (λ s. Q s ⊎ (s ≡ secret)) = rw e at covered in
          let (logged, all) =
            visit_all-Ends rest found' _ (λ s. Q s ⊎ (s ≡ secret)) listed h' covers in
          (logged, regroup_ends _ Q secret rest all))
        (λ e. (h', tt)) (λ e. (h', tt))
