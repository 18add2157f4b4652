-- ===== src/SecretsController/Progress.antt =====
-- `refresh` of secrets_controller.go gets to every secret that is to be deleted and to every one that
-- is to be created, unless a part of it panics.
pub mod Delete
pub mod Create
use mathlib.Core.Path.{subst}
use kube_aws_iam_controller.Base.Tests.{
  ◌≡◌, refl, false, Option, none, some, ◌⊎◌, inl, inr, Bool-cases,
}
use kube_aws_iam_controller.Base.Lists.{List, [], ◌∷◌}
use kube_aws_iam_controller.Base.Outcome.{ok, panic}
use kube_aws_iam_controller.Base.Text.{Text}
use kube_aws_iam_controller.Base.GoMap.{lookup}
use kube_aws_iam_controller.Base.Flow.{Flow, next, skip, crash, ◌>>=◌}
use kube_aws_iam_controller.Base.Flow.Keeps.{
  Keeps, Keeps-bind, Keeps-for_each, Keeps-attempt, Keeps-done, Keeps-if, EffectKeeps-id,
}
use kube_aws_iam_controller.Base.Flow.Reaches.{Reaches}
use kube_aws_iam_controller.Kube.Types.{Secret, SecretData}
use kube_aws_iam_controller.Kube.Recorded.{Sent, World, OfLog, Adds}
use kube_aws_iam_controller.RoleStore.{Pods, Namespaces, exists}
use kube_aws_iam_controller.SecretsController.Renewal.{
  SecretsController, role_of, has_owner, delete_unused, refresh_secret,
}
use kube_aws_iam_controller.SecretsController.{
  Found, store_found, cache_data, after_refresh, after_delete, visit, visit_all, cached_creds,
  create_in, create_for_role, finish,
}
use kube_aws_iam_controller.SecretsController.Calls.{
  with_record, get_creds-keeps, delete_unused-Keeps, refresh_secret-Keeps,
  create_in_namespace-Keeps,
}

-- A property of the record that further calls keep.
abbrev pub Grows : (List Sent → Type 0) → Type 0
Grows P = (sent : Sent) → Adds P sent

-- A round of the first loop leaves what was found, of the kind `Q`, or the program has panicked.
abbrev pub FoundIn : (Found → Type 0) → Flow Found → Type 0
FoundIn Q (next found) = Q found
FoundIn Q skip = ⊥
FoundIn Q crash = Unit

module _ {S : Type 0} (c : SecretsController S) where
  after_refresh-FoundIn :
      (Q : Found → Type 0) (role : Text) (found : Found) (r : Flow (Option SecretData))
      (w : World S)
      → Q found
      → ((d : Option SecretData) → Q (cache_data role d found))
      → FoundIn Q (after_refresh (with_record c) role found (r, w)).0
  unfolding after_refresh
  after_refresh-FoundIn Q role found (next d) w h k = k d
  after_refresh-FoundIn Q role found skip w h k = h
  after_refresh-FoundIn Q role found crash w h k = tt

  after_delete-FoundIn :
      (Q : Found → Type 0) (found : Found) (r : Flow (Unit {0})) (w : World S)
      → Q found
      → FoundIn Q (after_delete (with_record c) found (r, w)).0
  unfolding after_delete
  after_delete-FoundIn Q found (next _) w h = h
  after_delete-FoundIn Q found skip w h = h
  after_delete-FoundIn Q found crash w h = tt

  -- What is kept when an unowned secret is stored, and when data are cached, is kept by a round.
  pub visit-FoundIn :
      (Q : Found → Type 0) (secret : Secret) (found : Found) (w : World S)
      → Q found
      → (has_owner secret ≡ false → Q (store_found secret found))
      → ((role : Text) (d : Option SecretData) (f : Found) → Q f → Q (cache_data role d f))
      → FoundIn Q (visit (with_record c) secret found w).0
  unfolding visit
  visit-FoundIn Q secret found w h stored cached = elim (Bool-cases (has_owner secret)) [
    | inl owned ↦ rw owned h
    | inr unowned ↦
        let found' = store_found secret found in
        elim (Bool-cases (exists c.role_store (role_of secret) secret.namespace)) [
          | inl used ↦
              let (r, w') = refresh_secret (with_record c) secret w in
              rw (unowned, used)
                (after_refresh-FoundIn Q (role_of secret) found' r w' (stored unowned)
                  (λ d. cached (role_of secret) d found' (stored unowned)))
          | inr unused ↦
              let (r, w') = delete_unused (with_record c) secret w in
              rw (unowned, unused) (after_delete-FoundIn Q found' r w' (stored unowned))
        ]
  ]

  -- A round does not end the loop without a panic.
  pub visit-going_on :
      (secret : Secret) (found : Found) (w : World S)
      → (visit (with_record c) secret found w).0 ≡ skip
      → ⊥
  visit-going_on secret found w e =
      let left = visit-FoundIn (λ f. Unit) secret found w tt (λ u. tt) (λ role d f h. h) in
      subst (FoundIn (λ f. Unit)) e left

  after_refresh-log :
      (role : Text) (found : Found) (r : Flow (Option SecretData)) (w : World S)
      → (after_refresh (with_record c) role found (r, w)).1 ≡ w
  unfolding after_refresh
  after_refresh-log role found (next d) w = refl
  after_refresh-log role found skip w = refl
  after_refresh-log role found crash w = refl

  pub after_delete-log :
      (found : Found) (r : Flow (Unit {0})) (w : World S)
      → (after_delete (with_record c) found (r, w)).1 ≡ w
  unfolding after_delete
  after_delete-log found (next _) w = refl
  after_delete-log found skip w = refl
  after_delete-log found crash w = refl

  module _ (P : List Sent → Type 0) (grows : Grows P) where
    visit-kept :
        (secret : Secret) (found : Found) (w : World S)
        → P w.1
        → P (visit (with_record c) secret found w).1.1
    unfolding visit
    visit-kept secret found w h = elim (Bool-cases (has_owner secret)) [
      | inl owned ↦ rw owned h
      | inr unowned ↦
          let found' = store_found secret found in
          elim (Bool-cases (exists c.role_store (role_of secret) secret.namespace)) [
            | inl used ↦
                rw
                  (
                    unowned,
                    used,
                    after_refresh-log (role_of secret) found'
                        (refresh_secret (with_record c) secret w).0
                        (refresh_secret (with_record c) secret w).1,
                  )
                  ((refresh_secret-Keeps c {P = P} secret (grows _) (λ d. grows _)).at w h)
            | inr unused ↦
                rw
                  (
                    unowned,
                    unused,
                    after_delete-log found' (delete_unused (with_record c) secret w).0
                        (delete_unused (with_record c) secret w).1,
                  )
                  ((delete_unused-Keeps c {P = P} secret (grows _)).at w h)
          ]
    ]

    pub visit-Keeps :
        (secret : Secret) (found : Found) → Keeps (OfLog P) (visit (with_record c) secret found)
    visit-Keeps secret found = record { at = visit-kept secret found }

    pub visit_all-Keeps :
        (secrets : List Secret) (found : Found)
        → Keeps (OfLog P) (visit_all (with_record c) secrets found)
    unfolding visit_all
    visit_all-Keeps [] found = Keeps-done found
    visit_all-Keeps (secret ∷ secrets) found =
        Keeps-bind _ _ (visit-Keeps secret found) (visit_all-Keeps secrets)

    cached_creds-Keeps :
        (role : Text) (cached : Option SecretData)
        → Keeps (OfLog P) (cached_creds (with_record c) role cached)
    unfolding cached_creds
    cached_creds-Keeps role (some d) = Keeps-done d
    cached_creds-Keeps role none =
        Keeps-attempt _ _ (get_creds-keeps c role (grows _)) (λ e. EffectKeeps-id)

    pub create_in-Keeps :
        (found : Found) (role : Text) (creds : SecretData) (entry : Text × Pods)
        → Keeps (OfLog P) (create_in (with_record c) found role creds entry)
    unfolding create_in
    create_in-Keeps found role creds (ns, pods) =
        Keeps-if (exists found.tmp_secret_store role ns) _ _ (λ _. Keeps-done tt)
          (λ _. create_in_namespace-Keeps c role ns creds (grows _))

    pub create_for_role-Keeps :
        (found : Found) (entry : Text × Namespaces)
        → Keeps (OfLog P) (create_for_role (with_record c) found entry)
    unfolding create_for_role
    create_for_role-Keeps found (role, namespaces) =
        Keeps-bind _ _ (cached_creds-Keeps role (lookup role found.creds_cache))
          λ creds. Keeps-for_each namespaces _ (λ entry _. create_in-Keeps found role creds entry)

    pub finish-reached :
        (r : Flow (Unit {0}) × World S)
        → Reaches (OfLog P) r
        → let e = finish (with_record c) r in (e.0 ≡ panic) ⊎ P e.1.1
    unfolding finish
    finish-reached (next _, w) (inl e) = cc
    finish-reached (next _, w) (inr h) = inr h
    finish-reached (skip, w) (inl e) = cc
    finish-reached (skip, w) (inr h) = inr h
    finish-reached (crash, w) h = inl refl
