-- ===== src/Examples.antt =====
-- The theorems at concrete inputs: a cluster with one secret and one role, and small texts.
pub mod Controllers
pub mod Rounds
pub mod Crash
pub mod InUse
pub mod Informers
pub mod Clients
pub mod Server
pub mod Settle
pub mod RoleServer
pub mod SettleRoles
pub mod Running
pub mod Spares
pub mod Main
use mathlib.Core.List.{reverse}
use kube_aws_iam_controller.Base.Tests.{
  ◌≤◌, ◌≡◌, ◌≢◌, refl, ◌↔◌, true, ◌&&◌, ◌||◌, not, none, some, arith, ◌*◌, ◌+◌,
}
use kube_aws_iam_controller.Base.Lists.{List, [], ◌∷◌, ◌++◌, length, take, All}
use kube_aws_iam_controller.Base.Int.{ℤ, pos, ◌-ℤ◌}
use kube_aws_iam_controller.Base.Outcome.{ok, panic}
use kube_aws_iam_controller.Base.Text.{
  Text, codes, text_eq, strip_prefix, has_prefix, trim_prefix, trim_suffix, split, replace_byte,
}
use kube_aws_iam_controller.RoleStore.{exists, add, remove}
use kube_aws_iam_controller.RoleStore.Invariant.{StoreValid}
use kube_aws_iam_controller.RoleStore.Refinement.{has, same, has-add, has-remove}
use kube_aws_iam_controller.RoleStore.History.{
  Op, adds, removes, run, latest_adds, run-StoreValid, exists-run,
}
use kube_aws_iam_controller.Credentials.Types.{StsApi, second}
use kube_aws_iam_controller.Credentials.SessionName.{
  normalize_path, normalize_role_arn, account_id, underscored, role_session_name_max_size,
  normalize_parts, named, normalize_levels, cut_level,
}
use kube_aws_iam_controller.Credentials.SessionName.Levels.{room, Shortened}
use kube_aws_iam_controller.Credentials.SessionName.Bounds.{
  normalize_path-shortens, length-normalize_role_arn,
}
use kube_aws_iam_controller.Credentials.SessionName.Arn.{
  Plain, head_part, levels_of, TooDeep, normalize_role_arn-Plain, normalize_role_arn-panics,
}
use kube_aws_iam_controller.Credentials.Getter.{StsCredentialsGetter, get}
use kube_aws_iam_controller.Credentials.Getter.Requests.{with_log, OneRequest, get-OneRequest}

-- A history of the store: a pod is added in two namespaces and removed in one.
abbrev some_calls : List Op
some_calls =
    removes (codes "reader") (codes "kube-system") (codes "p")
    ∷ adds (codes "reader") (codes "kube-system") (codes "p")
    ∷ adds (codes "reader") (codes "default") (codes "p")
    ∷ []

exists-run_example :
    (exists (run some_calls) (codes "reader") (codes "default") ≡ true)
    ↔ ((p : Text) × (latest_adds some_calls (codes "reader") (codes "default") p ≡ true))
exists-run_example = exists-run some_calls (codes "reader") (codes "default")

run-StoreValid_example : StoreValid (run some_calls)
run-StoreValid_example = run-StoreValid some_calls

has-add_example :
    has
      (add (run some_calls) (codes "writer") (codes "default") (codes "q"))
      (codes "writer")
      (codes "default")
      (codes "q")
    ≡ (same
          (codes "writer")
          (codes "default")
          (codes "q")
          (codes "writer")
          (codes "default")
          (codes "q")
        || has (run some_calls) (codes "writer") (codes "default") (codes "q"))
has-add_example =
    has-add (run some_calls) (codes "writer") (codes "default") (codes "q") (codes "writer")
      (codes "default") (codes "q")

has-remove_example :
    has
      (remove (run some_calls) (codes "reader") (codes "default") (codes "p"))
      (codes "reader")
      (codes "default")
      (codes "p")
    ≡ (has (run some_calls) (codes "reader") (codes "default") (codes "p")
        && not (
            same
              (codes "reader")
              (codes "default")
              (codes "p")
              (codes "reader")
              (codes "default")
              (codes "p")))
has-remove_example =
    has-remove (run some_calls) (codes "reader") (codes "default") (codes "p") (codes "reader")
      (codes "default") (codes "p")

abbrev prefix : Text
prefix = codes "arn:aws:iam::"

abbrev arn : Text
arn = codes "arn:aws:iam::012345678910:role/path/role-name"

abbrev pub deep_arn : Text
deep_arn =
    codes "arn:aws:iam::012345678910:role/a/b/c/d/e/f/g/h/i/j/k/l/m/n/o/p/q/r/s/t/u/v/w/x/y/z/name"

normalize_path-shortens_example :
    (before : Text) × (normalize_path
        ((codes "aaaaa" ∷ codes "bbbbb" ∷ []) ++ codes "ccccccc" ∷ [])
        (pos 12)
      ≡ some (
          before
          ++ codes "."
          ++ take
              (room 12 (length (codes "aaaaa" ∷ codes "bbbbb" ∷ [])))
              (underscored (codes "ccccccc"))))
    × Shortened (reverse (codes "aaaaa" ∷ codes "bbbbb" ∷ [])) before
    × (length (
          before
          ++ codes "."
          ++ take
              (room 12 (length (codes "aaaaa" ∷ codes "bbbbb" ∷ [])))
              (underscored (codes "ccccccc")))
        ≤ 12)
normalize_path-shortens_example =
    normalize_path-shortens (codes "aaaaa" ∷ codes "bbbbb" ∷ []) (codes "ccccccc") 12 (omega arith)

named_arn : normalize_role_arn arn prefix ≡ ok (codes "012345678910.path.role-name")
unfolding normalize_role_arn normalize_parts named normalize_path normalize_levels cut_level
    account_id replace_byte split trim_prefix trim_suffix text_eq strip_prefix ◌-ℤ◌
named_arn = refl

length-normalize_role_arn_example :
    length (codes "012345678910.path.role-name") ≤ role_session_name_max_size
length-normalize_role_arn_example =
    length-normalize_role_arn arn prefix (codes "012345678910.path.role-name") named_arn

account-Lacks : All (λ c. c ≢ b':') (account_id (head_part arn) prefix)
unfolding account_id split trim_prefix trim_suffix text_eq strip_prefix
account-Lacks = omega arith

normalize_role_arn-Plain_example : All Plain (codes "012345678910.path.role-name")
normalize_role_arn-Plain_example =
    normalize_role_arn-Plain arn prefix (codes "012345678910.path.role-name") account-Lacks
      named_arn

normalize_role_arn-panics_example : (normalize_role_arn deep_arn prefix ≡ panic) ↔ (
    (levels_of deep_arn ≢ [])
    × TooDeep (account_id (head_part deep_arn) prefix) (levels_of deep_arn))
normalize_role_arn-panics_example = normalize_role_arn-panics deep_arn prefix

-- STS that answers every request with the same keys.
abbrev pub some_sts : StsApi (Unit {0})
some_sts = record {
  assume_role = λ input s. (
    ok (
        some (record {
          access_key_id = some (codes "id");
          secret_access_key = some (codes "key");
          session_token = some (codes "token");
          expiration = some (pos 3600);
        })),
    s,
  );
  to_string = λ o. elim o [ none ↦ [] | some t ↦ t ];
  to_time = λ o. elim o [ none ↦ pos 0 | some t ↦ t ];
  inexact_seconds = λ d. pos 0;
}

abbrev pub some_getter : StsCredentialsGetter (Unit {0})
some_getter = record {
  svc = some_sts;
  base_role_arn = codes "arn:aws:iam::012345678910:role/";
  base_role_arn_prefix = prefix;
}

based : has_prefix some_getter.base_role_arn some_getter.base_role_arn_prefix ≡ true
unfolding has_prefix strip_prefix
based = refl

get-OneRequest_example :
    let r = get (with_log some_getter) (codes "role-name") (pos (3600 * second)) (tt, []) in
    OneRequest some_getter (codes "role-name") [] r.0 r.1.1
get-OneRequest_example =
    get-OneRequest some_getter (codes "role-name") (pos (3600 * second)) tt [] based
