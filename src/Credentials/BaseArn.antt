-- ===== src/Credentials/BaseArn.antt =====
-- GetBaseRoleARN and GetPrefixFromARN of credentials_getter.go. The metadata service and the
-- parser of ARNs belong to the SDK: their answers are arguments.
use kube_aws_iam_controller.Base.Tests.{◌≡◌, refl, arith, ℕ, ◌≢◌, true, ◌==◌, Bool-cases, inl, inr}
use kube_aws_iam_controller.Base.Lists.{List, [], ◌∷◌, ◌++◌, All-append, append_assoc}
use kube_aws_iam_controller.Base.Outcome.{Outcome, ok, err, panic}
use kube_aws_iam_controller.Base.Text.{
  Text, codes, replace_first, split, has_prefix, has_prefix-append, Lacks, strip_prefix,
}

-- The account's part of the split ARN, with its slash.
base_of : List Text → Outcome Text
base_of (part ∷ name ∷ rest) = ok (part ++ codes "/")
base_of _ = err (codes "failed to determine BaseRoleARN")

-- The argument is the `InstanceProfileArn` that the metadata service reports.
unfoldable pub get_base_role_arn : Outcome Text → Outcome Text
unfolding base_of
get_base_role_arn (ok instance_profile_arn) =
    base_of
      (split (replace_first instance_profile_arn (codes "instance-profile") (codes "role")) b'/')
get_base_role_arn (err e) = err e
get_base_role_arn panic = panic

-- The arguments are the ARN and what the SDK's parser finds as its partition.
unfoldable pub get_prefix_from_arn : Text → Outcome Text → Outcome Text
get_prefix_from_arn input_arn (ok partition) = ok (codes "arn:" ++ partition ++ codes ":iam::")
get_prefix_from_arn input_arn (err e) =
    err (codes "error parsing ARN (" ++ input_arn ++ codes "): " ++ e)
get_prefix_from_arn input_arn panic = panic

split_cases : (s : Text) (sep : ℕ) → (q : Text) × (qs : List Text) × (split s sep ≡ q ∷ qs)
unfolding split
split_cases [] sep = ([], [], refl)
split_cases (c ∷ s) sep =
    let (q, qs, e) = split_cases s sep in
    elim (Bool-cases (c == sep)) [
      | inl here ↦ ([], split s sep, rw here)
      | inr there ↦ (c ∷ q, qs, rw (there, e))
    ]

-- A part without the separator, and the separator behind it, are the first part of the split.
split-append : (p s : Text) (sep : ℕ) → Lacks sep p → split (p ++ sep ∷ s) sep ≡ p ∷ split s sep
unfolding split
split-append [] s sep h = ground arith
split-append (c ∷ p) s sep (ne, h) = ground (arith, split-append p s sep h)

abbrev instance_profile : Text
instance_profile = codes "instance-profile"

replace_first-skip :
    (p s new : Text)
    → Lacks b'i' p
    → replace_first (p ++ s) instance_profile new ≡ p ++ replace_first s instance_profile new
unfolding replace_first strip_prefix
replace_first-skip [] s new h = refl
replace_first-skip (c ∷ p) s new (ne, h) = ground (arith, replace_first-skip p s new h)

-- An instance profile of an account, as the metadata service reports it.
abbrev pub profile_arn : Text → Text → Text → Text
profile_arn partition account name =
    codes "arn:"
    ++ (partition ++ (codes ":iam::" ++ (account ++ (codes ":instance-profile/" ++ name))))

abbrev pub role_part : Text → Text → Text
role_part partition account =
    codes "arn:" ++ (partition ++ (codes ":iam::" ++ (account ++ codes ":role")))

replace_first-profile_arn :
    (partition account name : Text)
    → Lacks b'i' partition
    → Lacks b'i' account
    → replace_first (profile_arn partition account name) instance_profile (codes "role")
      ≡ codes "arn:" ++ (partition ++ (codes ":iam::" ++ (account ++ (codes ":role/" ++ name))))
unfolding replace_first strip_prefix
replace_first-profile_arn partition account name hp ha = simp (
  replace_first-skip partition _ (codes "role") hp,
  replace_first-skip account _ (codes "role") ha,
)

role_part-Lacks :
    (partition account : Text)
    → Lacks b'/' partition
    → Lacks b'/' account
    → Lacks b'/' (role_part partition account)
role_part-Lacks partition account hp ha =
    let no_slash = λ (c : ℕ). c ≢ b'/' in
    let tail = All-append no_slash account (codes ":role") ha (omega arith) in
    let middle = All-append no_slash (codes ":iam::") _ (omega arith) tail in
    All-append no_slash (codes "arn:") _ (omega arith) (All-append no_slash partition _ hp middle)

base_of-cons : (p : Text) (s : Text) → base_of (p ∷ split s b'/') ≡ ok (p ++ codes "/")
unfolding base_of
base_of-cons p s = let (q, qs, e) = split_cases s b'/' in rw e

role_part-slash :
    (partition account name : Text)
    → codes "arn:" ++ (partition ++ (codes ":iam::" ++ (account ++ (codes ":role/" ++ name))))
      ≡ role_part partition account ++ b'/' ∷ name
role_part-slash partition account name = simp append_assoc

prefix-role_part :
    (partition account : Text)
    → role_part partition account ++ codes "/"
      ≡ (codes "arn:" ++ partition ++ codes ":iam::") ++ (account ++ codes ":role/")
prefix-role_part partition account = simp append_assoc

-- From the instance profile of an account GetBaseRoleARN finds the base ARN of the account's roles,
-- whatever the path of the profile. GetPrefixFromARN, if the parser finds the partition, gives a
-- prefix of it. Neither the partition nor the account may hold a slash or the letter i.
pub get_base_role_arn-profile_arn :
    (partition account name : Text)
    → Lacks b'/' partition
    → Lacks b'/' account
    → Lacks b'i' partition
    → Lacks b'i' account
    → (base : Text) × (prefix : Text) × (get_base_role_arn (ok (profile_arn partition account name))
        ≡ ok base)
      × (base ≡ role_part partition account ++ codes "/")
      × (get_prefix_from_arn base (ok partition) ≡ ok prefix)
      × (prefix ≡ codes "arn:" ++ partition ++ codes ":iam::")
      × (has_prefix base prefix ≡ true)
unfolding get_base_role_arn get_prefix_from_arn
get_base_role_arn-profile_arn partition account name sp sa ip ia =
    let part = role_part partition account in
    let replaced = replace_first-profile_arn partition account name ip ia in
    let prefix = codes "arn:" ++ partition ++ codes ":iam::" in
    let as_split = split-append part name b'/' (role_part-Lacks partition account sp sa) in
    (
      part ++ codes "/",
      prefix,
      rw (replaced, role_part-slash partition account name, as_split) (base_of-cons part name),
      refl,
      refl,
      refl,
      rw (prefix-role_part partition account)
          (has_prefix-append prefix (account ++ codes ":role/")),
    )
