-- ===== src/StartUp.antt =====
-- main.go: how the program finds out which roles it works with, before it starts the controllers;
-- `Main` has the rest. A call of `log.Fatalf`, which ends the program, is an error.
pub mod Main
pub mod Running
pub mod Spares
use kube_aws_iam_controller.Base.Tests.{
  ◌≡◌, refl, true, Option, none, some, some-eq, inl, inr, Bool-cases, if◌then◌else◌,
}
use kube_aws_iam_controller.Base.Lists.{[], ◌++◌}
use kube_aws_iam_controller.Base.Outcome.{Outcome, ok, err, panic}
use kube_aws_iam_controller.Base.Text.{
  Text, codes, text_eq, has_prefix, has_prefix-append_right, Lacks,
}
use kube_aws_iam_controller.Credentials.Types.{Duration}
use kube_aws_iam_controller.Credentials.BaseArn.{
  get_base_role_arn, get_prefix_from_arn, profile_arn, role_part, get_base_role_arn-profile_arn,
}

-- The flags; an empty text is one that is not given. The flag for debug output is left out.
pub record Config : Type 0 where
  pub interval : Duration
  pub refresh_limit : Duration
  pub base_role_arn : Text
  pub api_server : Option Text
  pub namespace : Text
  pub assume_role : Text

-- What the credentials getter is made with, and the role that the controller assumes first.
pub record Setup : Type 0 where
  pub base_role_arn : Text
  pub base_role_arn_prefix : Text
  pub assumed : Option Text

-- `if config.BaseRoleARN == "" { … }`; the argument is what the metadata service reports.
unfoldable pub base_role_arn_of : Config → Outcome Text → Outcome Text
base_role_arn_of config instance_profile_arn =
    if text_eq config.base_role_arn []
    then get_base_role_arn instance_profile_arn
    else ok config.base_role_arn

-- `if config.AssumeRole != "" { … }`
unfoldable pub assumed_role : Config → Text → Text → Option Text
assumed_role config base_role_arn prefix =
    if text_eq config.assume_role []
    then none
    else if has_prefix config.assume_role prefix
    then some config.assume_role
    else some (base_role_arn ++ config.assume_role)

with_prefix : Config → Text → Outcome Text → Outcome Setup
with_prefix config base_role_arn (ok prefix) = ok (record {
  base_role_arn = base_role_arn;
  base_role_arn_prefix = prefix;
  assumed = assumed_role config base_role_arn prefix;
})
with_prefix config base_role_arn (err e) = err e
with_prefix config base_role_arn panic = panic

with_base : Config → (Text → Outcome Text) → Outcome Text → Outcome Setup
unfolding with_prefix
with_base config partition_of (ok base_role_arn) =
    with_prefix config base_role_arn
      (get_prefix_from_arn base_role_arn (partition_of base_role_arn))
with_base config partition_of (err e) = err e
with_base config partition_of panic = panic

-- `partition_of` is the partition that the SDK's parser of ARNs finds.
unfoldable pub set_up : Config → Outcome Text → (Text → Outcome Text) → Outcome Setup
unfolding with_base
set_up config instance_profile_arn partition_of =
    with_base config partition_of (base_role_arn_of config instance_profile_arn)

assumed_role-has_prefix :
    (config : Config) (base prefix role : Text)
    → has_prefix base prefix ≡ true
    → assumed_role config base prefix ≡ some role
    → has_prefix role prefix ≡ true
unfolding assumed_role
assumed_role-has_prefix config base prefix role based e =
    elim (Bool-cases (text_eq config.assume_role [])) [
      | inl empty ↦ cc
      | inr given ↦ elim (Bool-cases (has_prefix config.assume_role prefix)) [
        | inl whole ↦ rw (← some-eq (rw (given, whole) at e)) whole
        | inr name ↦
            rw (← some-eq (rw (given, name) at e))
              (has_prefix-append_right base config.assume_role prefix based)
      ]
    ]

-- Without a configured base ARN, on an instance with a profile of the account, and if the parser
-- finds the partition of the base ARN, start-up succeeds: the base ARN is that of the account's
-- roles, its prefix runs up to the account, and the role that is assumed first, if there is one, has
-- that prefix too. Neither the partition nor the account may hold a slash or the letter i.
pub set_up-profile_arn :
    (config : Config) (partition account name : Text) (partition_of : Text → Outcome Text)
    → config.base_role_arn ≡ []
    → Lacks b'/' partition
    → Lacks b'/' account
    → Lacks b'i' partition
    → Lacks b'i' account
    → partition_of (role_part partition account ++ codes "/") ≡ ok partition
    → (setup : Setup) × (set_up config (ok (profile_arn partition account name)) partition_of
        ≡ ok setup)
      × (setup.base_role_arn ≡ role_part partition account ++ codes "/")
      × (setup.base_role_arn_prefix ≡ codes "arn:" ++ partition ++ codes ":iam::")
      × (has_prefix setup.base_role_arn setup.base_role_arn_prefix ≡ true)
      × ((role : Text)
          → setup.assumed ≡ some role
          → has_prefix role setup.base_role_arn_prefix ≡ true)
unfolding set_up base_role_arn_of text_eq
set_up-profile_arn config partition account name partition_of unset sp sa ip ia parsed =
    let (base, prefix, e, same, e', prefix_same, based) =
      get_base_role_arn-profile_arn partition account name sp sa ip ia in
    (
      record {
        base_role_arn = base;
        base_role_arn_prefix = prefix;
        assumed = assumed_role config base prefix;
      },
      rw (unset, e, same, parsed, ← same, e') refl,
      same,
      prefix_same,
      based,
      λ role found. assumed_role-has_prefix config base prefix role based found,
    )
