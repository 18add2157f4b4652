-- ===== src/Examples/Rounds.antt =====
-- The theorems on whole rounds, on the loops and on start-up at concrete inputs.
use kube_aws_iam_controller.Base.Tests.{
  ◌≡◌, ◌≢◌, refl, ap, ◌⊎◌, true, none, some, ◌*◌, inl, inr, arith,
}
use kube_aws_iam_controller.Base.Lists.{[], ◌∷◌, ◌++◌, All, Member}
use kube_aws_iam_controller.Base.Int.{pos, ◌+ℤ◌, ◌-ℤ◌}
use kube_aws_iam_controller.Base.Outcome.{ok, err, panic}
use kube_aws_iam_controller.Base.Text.{Text, codes, text_eq, has_prefix}
use kube_aws_iam_controller.Base.Select.{tick, returned, ticks, iterate}
use kube_aws_iam_controller.Credentials.Types.{second}
use kube_aws_iam_controller.Credentials.BaseArn.{profile_arn, role_part}
use kube_aws_iam_controller.Kube.Types.{AwsIamRole}
use kube_aws_iam_controller.Kube.Recorded.{asked, deleted}
use kube_aws_iam_controller.SecretFiles.{is_owned_reference}
use kube_aws_iam_controller.AwsIamRoleController.Renewal.{AwsIamRoleController, session_duration}
use kube_aws_iam_controller.AwsIamRoleController.{refresh as refresh_roles}
use kube_aws_iam_controller.AwsIamRoleController.Calls.{with_record}
use kube_aws_iam_controller.AwsIamRoleController.Listing.{Listed, roles_fail, refresh-ListFails}
use kube_aws_iam_controller.AwsIamRoleController.Allowed.{HasNoSecret, IsOrphan}
use kube_aws_iam_controller.AwsIamRoleController.Progress.Refresh.{refresh-asks, refresh-deletes}
use kube_aws_iam_controller.AwsIamRoleController.Loop.{run as run_roles, run-ticks}
use kube_aws_iam_controller.SecretsController.Renewal.{SecretsController}
use kube_aws_iam_controller.SecretsController.{refresh}
use kube_aws_iam_controller.SecretsController.Loop.{run, run-ticks_unserved}
use kube_aws_iam_controller.StartUp.{Config, Setup, set_up, set_up-profile_arn}
use kube_aws_iam_controller.Examples.Controllers.{
  meta, some_role, some_secret, roles_controller, secrets_controller,
}

-- A role without a secret.
abbrev other_role : AwsIamRole
other_role = record some_role { object_meta = meta (codes "other") [] }

other_role-HasNoSecret : HasNoSecret (some_secret ∷ []) other_role
other_role-HasNoSecret secret (inl e) = rw e (λ same. cc)
other_role-HasNoSecret secret (inr never) = absurd never

both-Listed :
    Listed
      (roles_controller (ok (some_role ∷ other_role ∷ [])))
      tt
      tt
      (some_secret ∷ [])
      (some_role ∷ other_role ∷ [])
both-Listed = record { between = tt; secrets_listed = refl; roles_listed = refl }

refresh-asks_example :
    let r =
      refresh_roles (with_record (roles_controller (ok (some_role ∷ other_role ∷ [])))) (tt, []) in
    (r.0 ≡ panic) ⊎ Member (asked (codes "reader") (session_duration other_role.spec)) r.1.1
refresh-asks_example =
    refresh-asks (roles_controller (ok (some_role ∷ other_role ∷ []))) tt tt (some_secret ∷ [])
      (some_role ∷ other_role ∷ []) other_role both-Listed (inr (inl refl)) other_role-HasNoSecret

-- A role that was deleted and made again: it does not own the secret of the first one.
abbrev new_role : AwsIamRole
new_role = record some_role { object_meta = record (meta (codes "app") []) { uid = codes "u2" } }

some_secret-IsOrphan : IsOrphan (new_role ∷ []) some_secret
unfolding is_owned_reference text_eq
some_secret-IsOrphan role (inl e) same = rw e refl
some_secret-IsOrphan role (inr never) same = absurd never

new-Listed : Listed (roles_controller (ok (new_role ∷ []))) tt tt (some_secret ∷ []) (new_role ∷ [])
new-Listed = record { between = tt; secrets_listed = refl; roles_listed = refl }

refresh-deletes_example :
    let r = refresh_roles (with_record (roles_controller (ok (new_role ∷ [])))) (tt, []) in
    (r.0 ≡ panic) ⊎ Member (deleted (codes "default") (codes "app")) r.1.1
refresh-deletes_example =
    refresh-deletes (roles_controller (ok (new_role ∷ []))) tt tt (some_secret ∷ []) (new_role ∷ [])
      some_secret new-Listed (inl refl) some_secret-IsOrphan

abbrev failing : AwsIamRoleController (Unit {0})
failing = roles_controller (err (codes "timeout"))

failing_calm : (s : Unit {0}) → (refresh_roles failing s).0 ≢ panic
failing_calm s p = cc (
    ap (λ r. r.0)
      (refresh-ListFails failing s s (codes "timeout") (roles_fail (some_secret ∷ []) s refl refl)))

run-ticks_example :
    run_roles failing (ticks 2 (tick ∷ [])) tt
    ≡ (returned, iterate 3 (λ s. (refresh_roles failing s).1) tt)
run-ticks_example = run-ticks failing 2 (tick ∷ []) tt failing_calm

-- A cluster that does not list its secrets.
abbrev no_secrets : SecretsController (Unit {0})
no_secrets = record secrets_controller {
  client = record secrets_controller.client {
    list_secrets = λ namespace labels s. (err (codes "timeout"), s);
  };
}

no_secrets_calm : (s : Unit {0}) → (refresh no_secrets s).0 ≢ panic
unfolding refresh
no_secrets_calm s p = cc

run-ticks_unserved_example : run no_secrets some (ticks 2 []) tt ≡ (
  returned,
  iterate 2
      (λ (next, t).
        let (now, t') = no_secrets.client.now t in
        (now +ℤ no_secrets.interval, (refresh no_secrets t').1))
      ((no_secrets.client.now tt).0 -ℤ no_secrets.interval, tt),
)
run-ticks_unserved_example = run-ticks_unserved no_secrets some 2 [] tt tt refl no_secrets_calm

abbrev pub flags : Config
flags = record {
  interval = pos (10 * second);
  refresh_limit = pos (900 * second);
  base_role_arn = [];
  api_server = none;
  namespace = [];
  assume_role = codes "controller";
}

pub aws-Lacks : (All (λ c. c ≢ b'/') (codes "aws")) × (All (λ c. c ≢ b'i') (codes "aws"))
aws-Lacks = omega arith

pub number-Lacks : (All (λ c. c ≢ b'/') (codes "0123")) × (All (λ c. c ≢ b'i') (codes "0123"))
number-Lacks = omega arith

set_up-profile_arn_example :
    (setup : Setup) × (set_up flags
        (ok (profile_arn (codes "aws") (codes "0123") (codes "node")))
        (λ base. ok (codes "aws"))
      ≡ ok setup)
    × (setup.base_role_arn ≡ role_part (codes "aws") (codes "0123") ++ codes "/")
    × (setup.base_role_arn_prefix ≡ codes "arn:" ++ codes "aws" ++ codes ":iam::")
    × (has_prefix setup.base_role_arn setup.base_role_arn_prefix ≡ true)
    × ((role : Text)
        → setup.assumed ≡ some role
        → has_prefix role setup.base_role_arn_prefix ≡ true)
set_up-profile_arn_example =
    set_up-profile_arn flags (codes "aws") (codes "0123") (codes "node") (λ base. ok (codes "aws"))
      refl aws-Lacks.0 number-Lacks.0 aws-Lacks.1 number-Lacks.1 refl
