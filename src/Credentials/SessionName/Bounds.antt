-- ===== src/Credentials/SessionName/Bounds.antt =====
-- What normalizePath and normalizeRoleARN return: bounds, panics and the bytes of a session name.
use mathlib.Core.List.{reverse, reverse-cons, reverse-append, reverse-reverse, concat-ne-nil}
use kube_aws_iam_controller.Base.Tests.{
  some-eq, inl, inr, ℕ, ◌+◌, ◌-◌, ◌*◌, ◌≤◌, ◌≡◌, ◌≢◌, refl, ap, Option, none, some, arith, ◌↔◌, ◌∙◌,
  sym,
}
use kube_aws_iam_controller.Base.Lists.{List, [], ◌∷◌, ◌++◌, length, take, All, length-append}
use kube_aws_iam_controller.Base.Int.{ℤ, pos, negsuc, ◌-ℤ◌, ◌≤ℤ◌, ≤ℤ_cases}
use kube_aws_iam_controller.Base.Outcome.{ok}
use kube_aws_iam_controller.Base.Text.{Text, codes, split}
use kube_aws_iam_controller.Credentials.SessionName.{
  underscored, normalize_levels, normalize_path, normalize_role_arn, normalize_parts, named,
  account_id, role_session_name_max_size,
}
use kube_aws_iam_controller.Credentials.SessionName.Levels.{
  fit, room, Shortened, Nonempty, dotted, normalize_levels-fit_last, normalize_levels-none,
  rest_room, length-fit_last, le-length-dotted, length-dotted-reverse, reverse-Nonempty, fit-cons,
  fit-Shortened, fit-whole,
}

reverse-snoc :
    (levels : List Text) (last : Text) → reverse (levels ++ last ∷ []) ≡ last ∷ reverse levels
reverse-snoc levels last = rw reverse-append

pub length-reverse : (levels : List Text) → length (reverse levels) ≡ length levels
length-reverse [] = refl
length-reverse (x ∷ xs) =
    rw reverse-cons (omega (arith, length-append {0} (reverse xs) (x ∷ []), length-reverse xs))

total_last :
    (last : Text) (levels : List Text) (remaining : ℤ)
    → pos (length levels * 2 + 1) ≤ℤ remaining
    → normalize_levels (last ∷ levels) remaining ≢ none
total_last last levels (pos r) h = cc (normalize_levels-fit_last last levels r (omega arith))
total_last last levels (negsuc r) h = absurd (omega arith)

-- For levels from the last to the first: a panic, if too few bytes remain.
pub normalize_levels-panics :
    (last : Text) (levels : List Text) (remaining : ℤ)
    → (normalize_levels (last ∷ levels) remaining ≡ none)
      ↔ (¬ (pos (length levels * 2 + 1) ≤ℤ remaining))
normalize_levels-panics last levels remaining = (
  λ e enough. total_last last levels remaining enough e,
  λ few. normalize_levels-none last levels remaining few,
)

-- With `others` levels before the last, normalizePath panics exactly when fewer than
-- `2 * others + 1` bytes remain; the number of remaining bytes may be negative.
pub normalize_path-panics :
    (others : List Text) (last : Text) (remaining : ℤ)
    → (normalize_path (others ++ last ∷ []) remaining ≡ none)
      ↔ (¬ (pos (length others * 2 + 1) ≤ℤ remaining))
unfolding normalize_path
normalize_path-panics others last remaining =
    rw (reverse-snoc others last, ← length-reverse others)
      (normalize_levels-panics last (reverse others) remaining)

-- With two bytes for each level, normalizePath returns a text that fits into the remaining bytes.
-- The last level keeps as many bytes as leave two for each other level, and of every other level
-- at least its first byte is kept.
pub normalize_path-shortens :
    (others : List Text) (last : Text) (r : ℕ)
    → length others * 2 + 2 ≤ r
    → (before : Text) × (normalize_path (others ++ last ∷ []) (pos r)
        ≡ some (before ++ codes "." ++ take (room r (length others)) (underscored last)))
      × Shortened (reverse others) before
      × (length (before ++ codes "." ++ take (room r (length others)) (underscored last)) ≤ r)
unfolding normalize_path
normalize_path-shortens others last r h =
    let levels = reverse others in
    let n = length-reverse others in
    let fits : length levels * 2 + 1 ≤ r = omega (arith, n) in
    let short = rest_room last (length levels) r fits in
    rw (reverse-snoc others last, ← n)
      (
        fit levels (r - length (take (room r (length levels)) (underscored last)) - 1),
        normalize_levels-fit_last last levels r fits ∙ ap some (fit-cons last levels r),
        fit-Shortened levels _ short,
        rw (fit-cons last levels r) at (length-fit_last last levels r fits),
      )

-- Levels that have a byte each and fit whole, each with its separator, are only joined.
pub normalize_path-whole :
    (others : List Text) (last : Text) (r : ℕ)
    → All Nonempty (others ++ last ∷ [])
    → length (dotted (others ++ last ∷ [])) ≤ r
    → normalize_path (others ++ last ∷ []) (pos r) ≡ some (dotted (others ++ last ∷ []))
unfolding normalize_path
normalize_path-whole others last r nonempty fits =
    let levels = others ++ last ∷ [] in
    let back = reverse-snoc others last in
    let two : length levels * 2 ≤ length (dotted levels) = le-length-dotted levels nonempty in
    let room_enough : length (reverse others) * 2 + 1 ≤ r =
      omega (arith, length-append {0} others (last ∷ []), length-reverse others) in
    let whole =
      fit-whole (reverse levels) r (reverse-Nonempty levels nonempty)
        (rw (length-dotted-reverse levels) fits) in
    rw back (
      normalize_levels-fit_last last (reverse others) r room_enough
      ∙ ap some
          (ap (λ (l : List Text). fit l r) (sym back) ∙ whole ∙ ap dotted (reverse-reverse levels)))

length_enough :
    (level : Text) (levels : List Text) (remaining : ℤ) (path : Text)
    → pos (length levels * 2 + 1) ≤ℤ remaining
    → normalize_levels (level ∷ levels) remaining ≡ some path
    → pos (length path) ≤ℤ remaining
length_enough level levels (negsuc r) path enough h = absurd (omega arith)
length_enough level levels (pos r) path enough h =
    let fits : length levels * 2 + 1 ≤ r = omega arith in
    let e = some-eq (sym (normalize_levels-fit_last level levels r fits) ∙ h) in
    let short = length-fit_last level levels r fits in omega (arith, rw e at short)

length-normalize_levels :
    (levels : List Text) (remaining : ℤ) (path : Text)
    → levels ≢ []
    → normalize_levels levels remaining ≡ some path
    → pos (length path) ≤ℤ remaining
length-normalize_levels [] remaining path ne h = absurd (ne refl)
length-normalize_levels (level ∷ levels) remaining path ne h =
    elim (≤ℤ_cases (pos (length levels * 2 + 1)) remaining) [
      | inl enough ↦ length_enough level levels remaining path enough h
      | inr few ↦ cc (normalize_levels-none level levels remaining few)
    ]

length-named :
    (account : Text) (path : Option Text) (name : Text)
    → ((p : Text)
        → path ≡ some p
        → pos (length p) ≤ℤ pos role_session_name_max_size -ℤ pos (length account))
    → named account path ≡ ok name
    → length name ≤ role_session_name_max_size
unfolding named ◌-ℤ◌
length-named account none name fits h = cc
length-named account (some p) name fits h =
    let e : account ++ p ≡ name = cc in
    let fit_path = fits p refl in rw (← e) (ground (arith, fit_path, length-append account p))

length-normalize_parts :
    (role_arn role_arn_prefix : Text) (parts : List Text) (name : Text)
    → normalize_parts role_arn role_arn_prefix parts ≡ ok name
    → length name ≤ role_session_name_max_size
unfolding normalize_parts normalize_path
length-normalize_parts role_arn role_arn_prefix [] name h = cc
length-normalize_parts role_arn role_arn_prefix (part ∷ []) name h = cc
length-normalize_parts role_arn role_arn_prefix (part ∷ level ∷ levels) name h =
    let ne : reverse (level ∷ levels) ≢ [] =
      rw (reverse-cons level levels) (concat-ne-nil level (reverse levels)) in
    length-named (account_id part role_arn_prefix) _ name
      (λ p e. length-normalize_levels (reverse (level ∷ levels)) _ p ne e) h

-- Whatever the role, the name of its session has at most 64 bytes.
pub length-normalize_role_arn :
    (role_arn role_arn_prefix name : Text)
    → normalize_role_arn role_arn role_arn_prefix ≡ ok name
    → length name ≤ role_session_name_max_size
unfolding normalize_role_arn
length-normalize_role_arn role_arn role_arn_prefix name h =
    length-normalize_parts role_arn role_arn_prefix (split role_arn b'/') name h
