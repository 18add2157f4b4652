-- ===== src/Examples/InUse.antt =====
-- The theorems on the progress, the rest and the liveness of the secrets controller, and on the expiry
-- of what is written.
use kube_aws_iam_controller.Base.Tests.{
  ◌≡◌, refl, ◌⊎◌, ◌↔◌, ◌*◌, true, false, none, some, inl, inr, arith,
}
use kube_aws_iam_controller.Base.Lists.{[], ◌∷◌, Member}
use kube_aws_iam_controller.Base.Int.{pos, ◌+ℤ◌, ◌≤ℤ◌}
use kube_aws_iam_controller.Base.Outcome.{ok, panic}
use kube_aws_iam_controller.Base.Text.{Text, codes, text_eq, text_eq_iff, trim_prefix, strip_prefix}
use kube_aws_iam_controller.Base.GoMap.{lookup, insert}
use kube_aws_iam_controller.Base.Select.{tick, waiting}
use kube_aws_iam_controller.Credentials.Types.{second, Credentials}
use kube_aws_iam_controller.Kube.Types.{Secret, SecretData}
use kube_aws_iam_controller.Kube.Recorded.{created, deleted}
use kube_aws_iam_controller.RoleStore.{exists, exists_in, add, new_role_store}
use kube_aws_iam_controller.RoleStore.Refinement.{exists-add}
use kube_aws_iam_controller.RoleStore.History.{adds, run, run-StoreValid}
use kube_aws_iam_controller.SecretFiles.{expire_key, soon, expires_soon, lookup_data}
use kube_aws_iam_controller.AwsIamRoleController.Renewal.{
  new_secret as new_role_secret, renewed_secret, get_creds as get_role_creds,
}
use kube_aws_iam_controller.AwsIamRoleController.Freshness.{IsFor, get_creds-IsFor}
use kube_aws_iam_controller.SecretsController.Renewal.{
  SecretsController, role_of, has_owner, new_secret, get_creds,
}
use kube_aws_iam_controller.SecretsController.{refresh}
use kube_aws_iam_controller.SecretsController.Calls.{with_record}
use kube_aws_iam_controller.SecretsController.Allowed.{HasNoSecret, IsUnowned}
use kube_aws_iam_controller.SecretsController.Progress.Delete.{refresh-deletes_unused}
use kube_aws_iam_controller.SecretsController.Progress.Create.{refresh-creates_missing}
use kube_aws_iam_controller.SecretsController.Idle.{AllInUse, AllProvided, refresh-idle_in_use}
use kube_aws_iam_controller.SecretsController.Loop.{round, run as run_secrets}
use kube_aws_iam_controller.SecretsController.Liveness.{is_live, is_live-run}
use kube_aws_iam_controller.Examples.Controllers.{
  some_role, some_secret, free_secret, some_cluster, roles_controller, secrets_controller,
}

free_secret-IsUnowned : IsUnowned free_secret
unfolding has_owner
free_secret-IsUnowned = refl

free_secret_unused :
    exists secrets_controller.role_store (role_of free_secret) free_secret.namespace ≡ false
unfolding exists run add lookup text_eq role_of new_role_store trim_prefix strip_prefix insert
free_secret_unused = refl

refresh-deletes_unused_example :
    let r = refresh (with_record secrets_controller) (tt, []) in
    (r.0 ≡ panic) ⊎ Member (deleted (codes "default") (codes "aws-iam-reader")) r.1.1
refresh-deletes_unused_example =
    refresh-deletes_unused secrets_controller tt tt (free_secret ∷ []) free_secret refl (inl refl)
      free_secret-IsUnowned free_secret_unused

reader_used : exists secrets_controller.role_store (codes "reader") (codes "kube-system") ≡ true
unfolding exists run add lookup text_eq new_role_store insert
reader_used = refl

reader-HasNoSecret : HasNoSecret (free_secret ∷ []) (codes "reader") (codes "kube-system")
reader-HasNoSecret secret (inl e) unowned same = rw e (λ p. cc)
reader-HasNoSecret secret (inr never) unowned same = absurd never

creds_answered :
    (s : Unit {0}) → (d : SecretData) × ((get_creds secrets_controller (codes "reader") s).0 ≡ ok d)
unfolding get_creds
creds_answered s = (_, refl)

refresh-creates_missing_example :
    let r = refresh (with_record secrets_controller) (tt, []) in
    (r.0 ≡ panic)
    ⊎ ((d : SecretData) × Member
          (created (codes "kube-system") (new_secret (codes "reader") (codes "kube-system") d))
          r.1.1)
refresh-creates_missing_example =
    refresh-creates_missing secrets_controller tt tt (free_secret ∷ []) (codes "reader")
      (codes "kube-system") refl reader_used reader-HasNoSecret creds_answered

-- The secret has data and is for a role in use.
abbrev busy_secret : Secret
busy_secret = record free_secret { data_map = some ((expire_key, codes "z") ∷ []) }

abbrev busy : SecretsController (Unit {0})
busy = record secrets_controller {
  client = some_cluster busy_secret (ok []);
  role_store = run (adds (codes "reader") (codes "default") (codes "p") ∷ []);
}

busy-AllInUse : AllInUse busy (busy_secret ∷ [])
unfolding exists run add lookup text_eq role_of new_role_store trim_prefix strip_prefix insert
    expires_soon soon lookup_data ◌+ℤ◌
busy-AllInUse x (inl e) unowned = rw e (refl, λ s. refl)
busy-AllInUse x (inr never) unowned = absurd never

used_is_reader :
    (role ns : Text)
    → exists busy.role_store role ns ≡ true
    → (codes "reader" ≡ role) × (codes "default" ≡ ns)
unfolding exists exists_in run new_role_store lookup
used_is_reader role ns used = ground (
  arith,
  exists-add new_role_store (codes "reader") (codes "default") (codes "p") role ns,
  text_eq_iff (codes "reader") role,
  text_eq_iff (codes "default") ns,
)

busy-AllProvided : AllProvided busy (busy_secret ∷ [])
unfolding has_owner role_of trim_prefix strip_prefix
busy-AllProvided role ns used =
    let (same, here) = used_is_reader role ns used in (busy_secret, inl refl, refl, same, here)

refresh-idle_in_use_example :
    (s'' : Unit {0}) × (refresh (with_record busy) (tt, []) ≡ (ok tt, (s'', [])))
refresh-idle_in_use_example =
    refresh-idle_in_use busy tt tt (busy_secret ∷ []) refl
      (run-StoreValid (adds (codes "reader") (codes "default") (codes "p") ∷ [])) busy-AllInUse
      busy-AllProvided

is_live-run_example :
    ((is_live secrets_controller (round secrets_controller (pos 0, tt)).1.0 (pos 70) ≡ true)
      ↔ (pos 70 ≤ℤ (secrets_controller.client.now tt).0 +ℤ pos (6 * (10 * second))))
    × ((run_secrets secrets_controller (λ s. none) (tick ∷ []) tt).0 ≡ waiting)
    × ((is_live secrets_controller
            (run_secrets secrets_controller (λ s. none) (tick ∷ []) tt).1.0
            (pos 70)
          ≡ true)
        ↔ (pos 70 ≤ℤ (secrets_controller.client.now tt).0 +ℤ pos (4 * (10 * second))))
is_live-run_example =
    is_live-run secrets_controller (10 * second) (λ s. none) (tick ∷ []) (pos 0) tt (pos 70) refl
      (omega arith) refl

abbrev reader_creds : Credentials
reader_creds = record {
  role_arn = codes "reader";
  access_key_id = codes "id";
  secret_access_key = codes "key";
  session_token = codes "token";
  expiration = pos 1000;
}

got_reader_creds :
    (d : SecretData) × (get_role_creds (roles_controller (ok [])) (codes "reader") (pos second) tt
      ≡ (ok (reader_creds, d), tt))
unfolding get_role_creds
got_reader_creds = (_, refl)

get_creds-IsFor_example :
    IsFor
      (roles_controller (ok []))
      (pos 3)
      reader_creds
      (new_role_secret some_role got_reader_creds.0)
    × IsFor
        (roles_controller (ok []))
        (pos 3)
        reader_creds
        (renewed_secret some_role some_secret got_reader_creds.0)
get_creds-IsFor_example =
    get_creds-IsFor (roles_controller (ok [])) (codes "reader") (pos second) tt tt reader_creds
      got_reader_creds.0 some_role some_secret got_reader_creds.1 refl (omega arith)
