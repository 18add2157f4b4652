-- ===== src/AwsIamRoleController/Progress.antt =====
-- `refresh` of awsiamrole_controller.go gets to every role without a secret and to every orphan,
-- unless a part of it panics.
pub mod Refresh
use kube_aws_iam_controller.Base.Tests.{◌≡◌, none, some, inl, inr, Option-cases}
use kube_aws_iam_controller.Base.Lists.{List, [], ◌∷◌, ◌++◌, Member}
use kube_aws_iam_controller.Base.GoMap.{GoMap}
use kube_aws_iam_controller.Base.Flow.{Flow, next, skip, crash, Step, next_round}
use kube_aws_iam_controller.Base.Flow.Reaches.{Reaches}
use kube_aws_iam_controller.Kube.Types.{Secret, AwsIamRole}
use kube_aws_iam_controller.Kube.Recorded.{Sent, World, OfLog, Adds}
use kube_aws_iam_controller.AwsIamRoleController.Renewal.{AwsIamRoleController, refresh_secret}
use kube_aws_iam_controller.AwsIamRoleController.{owner_of, refresh_secrets}
use kube_aws_iam_controller.AwsIamRoleController.Calls.{RoleAllowed}

abbrev pub Made : {S : Type 0} → Sent → World S → Type 0
Made sent = OfLog (Member sent)

-- The call was made, or the program has panicked.
abbrev pub Reached : {S A : Type 0} → Sent → Flow A × World S → Type 0
Reached sent = Reaches (Made sent)

pub adds : {sent : Sent} (other : Sent) → Adds (Member sent) other
adds other log h = inr h

pub role_adds : (sent : Sent) (role : AwsIamRole) → RoleAllowed (Member sent) role
role_adds sent role = record {
  ask = adds _;
  tell = λ e. adds _;
  observe_as = λ role_arn expiration. adds _;
}

-- What the first loop has gathered; it ends in orphans or in a panic.
abbrev pub GathersIn : (List Secret → Type 0) → Flow (List Secret) → Type 0
GathersIn Q (next orphans) = Q orphans
GathersIn Q skip = ⊥
GathersIn Q crash = Unit

next_round-GathersIn :
    {S : Type 0} (Q : List Secret → Type 0) (r : Flow Unit × S) (rest : Step S (List Secret))
    → ((s : S) → GathersIn Q (rest s).0)
    → GathersIn Q (next_round r rest).0
unfolding next_round
next_round-GathersIn Q (next _, s) rest h = h s
next_round-GathersIn Q (skip, s) rest h = h s
next_round-GathersIn Q (crash, s) rest h = tt

module _ {S : Type 0} (c : AwsIamRoleController S) (by_key : GoMap AwsIamRole)
    (R : List Secret → List Secret → Type 0)
    (owned : (x : Secret) (rest orphans : List Secret) (role : AwsIamRole)
      → owner_of by_key x ≡ some role
      → R (x ∷ rest) orphans
      → R rest orphans)
    (orphaned : (x : Secret) (rest orphans : List Secret)
      → owner_of by_key x ≡ none
      → R (x ∷ rest) orphans
      → R rest (orphans ++ x ∷ [])) where
  pub refresh_secrets-GathersIn :
      (rest orphans : List Secret) (s : S)
      → R rest orphans
      → GathersIn (R []) (refresh_secrets c by_key rest orphans s).0
  unfolding refresh_secrets
  refresh_secrets-GathersIn [] orphans s h = h
  refresh_secrets-GathersIn (x ∷ rest) orphans s h = elim (Option-cases (owner_of by_key x)) [
    | inl e ↦
        rw (e, refresh_secrets)
          (refresh_secrets-GathersIn rest (orphans ++ x ∷ []) s (orphaned x rest orphans e h))
    | inr (role, e) ↦
        rw (e, refresh_secrets)
          (next_round-GathersIn (R []) (refresh_secret c role x s)
            (refresh_secrets c by_key rest orphans)
            (λ s'. refresh_secrets-GathersIn rest orphans s' (owned x rest orphans role e h)))
  ]
