-- ===== src/Credentials/SessionName.antt =====
-- normalizeRoleARN and normalizePath of credentials_getter.go.
pub mod Levels
pub mod Bounds
pub mod Arn
use mathlib.Core.List.{reverse}
use kube_aws_iam_controller.Base.Tests.{
  ℕ, suc, ◌+◌, ◌*◌, ◌≡◌, refl, Option, none, some, if◌then◌else◌,
}
use kube_aws_iam_controller.Base.Lists.{List, [], ◌∷◌, ◌++◌, length, take}
use kube_aws_iam_controller.Base.Int.{ℤ, pos, negsuc, ◌-ℤ◌, ltb_ℤ}
use kube_aws_iam_controller.Base.Outcome.{Outcome, ok, err, panic}
use kube_aws_iam_controller.Base.Text.{
  Text, codes, replace_byte, split, trim_prefix, trim_suffix, text_eq, strip_prefix,
}

abbrev pub role_arn_suffix : Text
role_arn_suffix = codes ":role"

abbrev pub role_session_name_max_size : ℕ
role_session_name_max_size = 64

-- `last[:maxName]` for `maxName` below the length: a negative bound panics, shown as `none`.
slice_to : Text → ℤ → Option Text
slice_to s (pos n) = some (take n s)
slice_to s (negsuc n) = none

-- `if len(last) > maxName { last = last[:maxName] }`
unfoldable pub cut_level : Text → ℤ → Option Text
unfolding slice_to
cut_level last max_name =
    if ltb_ℤ max_name (pos (length last)) then slice_to last max_name else some last

abbrev pub underscored : Text → Text
underscored level = replace_byte level b':' b'_'

abbrev pub max_name : ℤ → ℕ → ℤ
max_name remaining other_levels = remaining -ℤ pos (other_levels * 2) -ℤ pos 1

-- What the recursion returns is put before the last level; a panic goes through.
abbrev pub join_level : Option Text → Text → Option Text
join_level none last = none
join_level (some before) last = some (before ++ codes "." ++ last)

-- The levels are given from the last one to the first, so that the first clause is
-- `len(levels) == 0` and the rest are `levels[:len(levels)-1]`; `none` is a panic.
unfoldable pub normalize_levels : List Text → ℤ → Option Text
normalize_levels [] remaining = some []
normalize_levels (level ∷ levels) remaining =
    elim (cut_level (underscored level) (max_name remaining (length levels))) [
      | none ↦ none
      | some last ↦
          join_level (normalize_levels levels (remaining -ℤ pos (length last) -ℤ pos 1)) last
    ]

unfoldable pub normalize_path : List Text → ℤ → Option Text
normalize_path levels remaining = normalize_levels (reverse levels) remaining

unfoldable pub account_id : Text → Text → Text
account_id part role_arn_prefix = trim_suffix (trim_prefix part role_arn_prefix) role_arn_suffix

abbrev pub invalid_role_arn : Text → Text
invalid_role_arn role_arn = codes "invalid roleARN: " ++ role_arn

unfoldable pub named : Text → Option Text → Outcome Text
named account none = panic
named account (some path) = ok (account ++ path)

unfoldable pub normalize_parts : Text → Text → List Text → Outcome Text
normalize_parts role_arn role_arn_prefix (part ∷ level ∷ levels) =
    let account = account_id part role_arn_prefix in
    let remaining = pos role_session_name_max_size -ℤ pos (length account) in
    named account (normalize_path (level ∷ levels) remaining)
normalize_parts role_arn role_arn_prefix _ = err (invalid_role_arn role_arn)

unfoldable pub normalize_role_arn : Text → Text → Outcome Text
normalize_role_arn role_arn role_arn_prefix =
    normalize_parts role_arn role_arn_prefix (split role_arn b'/')

-- The example of the comment on normalizePath.
normalize_path_test :
    normalize_path (codes "aaaaa" ∷ codes "bbbbb" ∷ codes "ccccccc" ∷ []) (pos 12)
    ≡ some (codes ".a.b.ccccccc")
unfolding normalize_path normalize_levels cut_level replace_byte ◌-ℤ◌
normalize_path_test = refl

normalize_role_arn_test :
    normalize_role_arn
      (codes "arn:aws:iam::012345678910:role/path/role-name")
      (codes "arn:aws:iam::")
    ≡ ok (codes "012345678910.path.role-name")
unfolding normalize_role_arn normalize_parts named normalize_path normalize_levels cut_level ◌-ℤ◌
    account_id replace_byte split trim_prefix trim_suffix text_eq strip_prefix
normalize_role_arn_test = refl
