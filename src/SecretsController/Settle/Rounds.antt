-- ===== src/SecretsController/Settle/Rounds.antt =====
-- The rounds of the first loop of `refresh` of secrets_controller.go: each goes on, and leaves the
-- held secrets as `Visited` says.
use kube_aws_iam_controller.Base.Tests.{
  ◌≡◌, ◌≢◌, refl, false, Option, some, ◌⊎◌, inl, inr, Bool-cases,
}
use kube_aws_iam_controller.Base.Lists.{List, [], ◌∷◌, Member, All}
use kube_aws_iam_controller.Base.Outcome.{Outcome, ok, err, panic}
use kube_aws_iam_controller.Base.Text.{Text}
use kube_aws_iam_controller.Base.Flow.{Flow, next, done, attempt, failed_by, ◌>>=◌}
use kube_aws_iam_controller.Base.Flow.Rounds.{attempt_of_ok}
use kube_aws_iam_controller.Kube.Types.{Secret, SecretData}
use kube_aws_iam_controller.Kube.Server.{IsSelected}
use kube_aws_iam_controller.RoleStore.{exists}
use kube_aws_iam_controller.SecretFiles.{expires_soon, expire_key, lookup_data}
use kube_aws_iam_controller.SecretFiles.Expiry.{expires_soon-view}
use kube_aws_iam_controller.SecretsController.Renewal.{
  SecretsController, owner_labels, role_of, has_owner, with_data, delete_unused, renew,
  refresh_secret, get_creds,
}
use kube_aws_iam_controller.SecretsController.{
  Found, store_found, cache_data, after_refresh, after_delete, visit, visit_all,
}
use kube_aws_iam_controller.SecretsController.Allowed.{IsUnowned}
use kube_aws_iam_controller.SecretsController.Idle.{IsFresh, fresh_data}
use kube_aws_iam_controller.SecretsController.Settle.{IsUsed, IsDue, Calm, Visited, owned-Visited}
use kube_aws_iam_controller.SecretsController.Settle.Visits.{
  delete-Visited, fresh-Visited, renew-Visited,
}

module _ {S : Type 0} (c : SecretsController S) (Refuses : Text → Text → Type 0)
    (held : S → List Secret) (calm : Calm c Refuses held) where
  -- The part goes on with something found, as `Visited` says.
  pub record Going (rest : List Secret) (r : Flow Found × S) : Type 0 where
    pub found : Found
    pub after : S
    pub goes_on : r ≡ (next found, after)
    pub visited : Visited c rest found (held after)

  expires_soon-held :
      (expirary : Option Text) (s : S)
      → held (expires_soon c.codec c.client c.refresh_limit expirary s).1 ≡ held s
  expires_soon-held expirary s =
      expires_soon-view c.codec c.client c.refresh_limit held calm.serves.reads_clock expirary s

  after_delete-next :
      (found : Found) (r : Outcome (Unit {0})) (s : S)
      → r ≢ panic
      → after_delete c found (failed_by r (λ e s. s) s) ≡ (next found, s)
  unfolding after_delete failed_by
  after_delete-next found (ok u) s h = refl
  after_delete-next found (err e) s h = refl
  after_delete-next found panic s h = absurd (h refl)

  with_data-IsSelected :
      (x : Secret) (d : SecretData)
      → IsSelected c.namespace owner_labels x
      → IsSelected c.namespace owner_labels (with_data x d)
  unfolding with_data
  with_data-IsSelected x d h = record { in_scope = h.in_scope; labelled = h.labelled }

  module _ (x : Secret) (rest : List Secret) (found : Found) (u : IsUnowned x) where
    delete-Going :
        (s : S)
        → Visited c (x ∷ rest) found (held s)
        → exists c.role_store (role_of x) x.namespace ≡ false
        → Going rest (after_delete c (store_found x found) (delete_unused c x s))
    unfolding delete_unused attempt
    delete-Going s v unused =
        let (alive, gone) = calm.serves.deletes s x.namespace x.name in
        let (r, s') = c.client.delete_secret x.namespace x.name s in
        record {
          found = store_found x found;
          after = s';
          goes_on = after_delete-next (store_found x found) r s' alive;
          visited = delete-Visited c x rest found (held s) u v (held s') unused gone;
        }

    renew-Going :
        (s : S)
        → Visited c (x ∷ rest) found (held s)
        → IsUsed c (role_of x) x.namespace
        → IsSelected c.namespace owner_labels x
        → Going rest (after_refresh c (role_of x) (store_found x found) (renew c x s))
    unfolding renew ◌>>=◌ done after_refresh with_data
    renew-Going s v used listed =
        let (d, got, fresh, same) = calm.credentials (role_of x) x.namespace s used in
        let s1 = (get_creds c (role_of x) s).1 in
        let asked = attempt_of_ok (get_creds c (role_of x)) (λ e s. s) s d got in
        let update = c.client.update_secret x.namespace (with_data x d) in
        elim (calm.serves.updates s1 (with_data x d) (with_data-IsSelected x d listed)) [
          | inl (accepted, wrote) ↦
              let sent = attempt_of_ok update (λ e s. s) s1 tt accepted in
              record {
                found = cache_data (role_of x) (some d) (store_found x found);
                after = (update s1).1;
                goes_on = rw (asked, sent) refl;
                visited =
                    renew-Visited c x rest found (held s) u v (held (update s1).1) d used fresh
                      (rw same at wrote);
              }
          | inr (e, refused, stale, unchanged) ↦
              let there : Member x (held s1) = rw same (v.still_there x (inl refl)) in
              absurd (stale x there (record { same_namespace = refl; same_name = refl }) refl)
        ]

    refresh-Going :
        (s : S)
        → Visited c (x ∷ rest) found (held s)
        → IsUsed c (role_of x) x.namespace
        → IsSelected c.namespace owner_labels x
        → IsFresh c x ⊎ IsDue c x
        → Going rest (after_refresh c (role_of x) (store_found x found) (refresh_secret c x s))
    unfolding refresh_secret after_refresh done
    refresh-Going s v used listed decided =
        let text = lookup_data expire_key x.data_map in
        let s1 = (expires_soon c.codec c.client c.refresh_limit text s).1 in
        let same = expires_soon-held text s in
        elim (Bool-cases (expires_soon c.codec c.client c.refresh_limit text s).0) [
          | inl due ↦ rw due (renew-Going s1 (rw same v) used listed)
          | inr fresh ↦ elim decided [
            | inl lasting ↦
                let (d, found_data) = fresh_data c x s lasting in
                record {
                  found = cache_data (role_of x) (some d) (store_found x found);
                  after = s1;
                  goes_on = rw (fresh, found_data) refl;
                  visited =
                      rw same (fresh-Visited c x rest found (held s) u v d used lasting found_data);
                }
            | inr due ↦ let now = due s in absurd cc
          ]
        ]

  visit-Going :
      (x : Secret) (rest : List Secret) (found : Found) (s : S)
      → Visited c (x ∷ rest) found (held s)
      → IsSelected c.namespace owner_labels x
      → (IsUnowned x → IsFresh c x ⊎ IsDue c x)
      → Going rest (visit c x found s)
  unfolding visit
  visit-Going x rest found s v listed decided = elim (Bool-cases (has_owner x)) [
    | inl owned ↦ record {
      found = found;
      after = s;
      goes_on = rw owned refl;
      visited = owned-Visited c x rest found (held s) owned v;
    }
    | inr u ↦ elim (Bool-cases (exists c.role_store (role_of x) x.namespace)) [
      | inl used ↦ rw (u, used) (refresh-Going x rest found u s v used listed (decided u))
      | inr unused ↦ rw (u, unused) (delete-Going x rest found u s v unused)
    ]
  ]

  -- The whole first loop.
  pub visit_all-Going :
      (rest : List Secret) (found : Found) (s : S)
      → All (IsSelected c.namespace owner_labels) rest
      → ((y : Secret) → Member y rest → IsUnowned y → IsFresh c y ⊎ IsDue c y)
      → Visited c rest found (held s)
      → Going [] (visit_all c rest found s)
  unfolding visit_all done ◌>>=◌
  visit_all-Going [] found s listed decided v = record {
    found = found;
    after = s;
    goes_on = refl;
    visited = v;
  }
  visit_all-Going (x ∷ rest) found s (here, listed) decided v =
      let first = visit-Going x rest found s v here (decided x (inl refl)) in
      let later =
        visit_all-Going rest first.found first.after listed (λ y mem. decided y (inr mem))
          first.visited in
      record {
        found = later.found;
        after = later.after;
        goes_on = rw first.goes_on later.goes_on;
        visited = later.visited;
      }
