-- ===== src/Credentials/SessionName/Arn.antt =====
-- normalizeRoleARN on a whole ARN: when it errs, when it panics, and the bytes of the name.
use mathlib.Core.List.{reverse, reverse-cons, concat-ne-nil, cons-ne-nil}
use kube_aws_iam_controller.Base.Tests.{
  ℕ, suc, ◌+◌, ◌*◌, ◌<◌, ◌≡◌, ◌≢◌, refl, Option, none, some, arith, ◌↔◌, Holds, Option-cases,
  Bool-cases, ◌==◌, inl, inr,
}
use kube_aws_iam_controller.Base.Lists.{List, [], ◌∷◌, ◌++◌, length, All, All-append, All-take}
use kube_aws_iam_controller.Base.Int.{ℤ, pos, negsuc, ◌-ℤ◌, ◌≤ℤ◌}
use kube_aws_iam_controller.Base.Outcome.{ok, panic}
use kube_aws_iam_controller.Base.Text.{
  Text, codes, replace_byte, split, onto_head, Lacks, strip_prefix, trim_prefix, trim_suffix,
  text_eq,
}
use kube_aws_iam_controller.Credentials.SessionName.{
  underscored, join_level, cut_level, max_name, normalize_levels, normalize_path,
  normalize_role_arn, normalize_parts, named, account_id, role_session_name_max_size,
  role_arn_suffix,
}
use kube_aws_iam_controller.Credentials.SessionName.Levels.{cut_level-pos, cut_level-negsuc}
use kube_aws_iam_controller.Credentials.SessionName.Bounds.{normalize_levels-panics, length-reverse}

abbrev pub first : List Text → Text
first [] = []
first (p ∷ ps) = p

abbrev pub rest_of : List Text → List Text
rest_of [] = []
rest_of (p ∷ ps) = ps

onto_head-Lacks :
    (sep c : ℕ) (parts : List Text)
    → c ≢ sep
    → All (Lacks sep) parts
    → All (Lacks sep) (onto_head c parts)
onto_head-Lacks sep c [] ne h = ((ne, tt), tt)
onto_head-Lacks sep c (p ∷ ps) ne (hp, h) = ((ne, hp), h)

split-Lacks : (s : Text) (sep : ℕ) → All (Lacks sep) (split s sep)
unfolding split
split-Lacks [] sep = (tt, tt)
split-Lacks (c ∷ s) sep = elim (Bool-cases (c == sep)) [
  | inl e ↦ rw e (tt, split-Lacks s sep)
  | inr e ↦ rw e (onto_head-Lacks sep c (split s sep) (ground arith) (split-Lacks s sep))
]

-- A property of every byte survives trimming.
module _ (P : ℕ → Type 0) where
  strip_prefix-All : (s p : Text) → All P s → Holds (All P) (strip_prefix s p)
  unfolding strip_prefix
  strip_prefix-All s [] h = h
  strip_prefix-All [] (d ∷ p) h = tt
  strip_prefix-All (c ∷ s) (d ∷ p) (pc, h) = elim (Bool-cases (c == d)) [
    | inl e ↦ rw e (strip_prefix-All s p h)
    | inr e ↦ rw e tt
  ]

  trim_prefix-All : (s p : Text) → All P s → All P (trim_prefix s p)
  unfolding trim_prefix
  trim_prefix-All s p h = elim (Option-cases (strip_prefix s p)) [
    | inl e ↦ rw (e, trim_prefix) h
    | inr (rest, e) ↦ rw (e, trim_prefix) (rw e at (strip_prefix-All s p h))
  ]

  trim_suffix-All : (s p : Text) → All P s → All P (trim_suffix s p)
  unfolding trim_suffix
  trim_suffix-All [] p h = tt
  trim_suffix-All (c ∷ s) p (pc, h) = elim (Bool-cases (text_eq (c ∷ s) p)) [
    | inl e ↦ rw e tt
    | inr e ↦ rw e (pc, trim_suffix-All s p h)
  ]

  account_id-All : (part p : Text) → All P part → All P (account_id part p)
  unfolding account_id
  account_id-All part p h = trim_suffix-All _ role_arn_suffix (trim_prefix-All part p h)

-- The bytes of a session name are neither a slash nor a colon.
abbrev pub Plain : ℕ → Type 0
Plain c = (c ≢ b'/') × (c ≢ b':')

underscored-Plain : (level : Text) → Lacks b'/' level → All Plain (underscored level)
unfolding replace_byte
underscored-Plain [] h = tt
underscored-Plain (c ∷ s) (ne, h) = (ground arith, underscored-Plain s h)

cut_level-Plain : (s : Text) (n : ℤ) → All Plain s → Holds (All Plain) (cut_level s n)
cut_level-Plain s (pos n) h = rw cut_level-pos (All-take Plain n s h)
cut_level-Plain s (negsuc n) h = rw cut_level-negsuc tt

join_level-Plain :
    (before : Option Text) (last : Text)
    → Holds (All Plain) before
    → All Plain last
    → Holds (All Plain) (join_level before last)
join_level-Plain none last h hl = tt
join_level-Plain (some before) last h hl =
    All-append Plain (before ++ codes ".") last
      (All-append Plain before (codes ".") h (omega arith)) hl

normalize_levels-Plain :
    (levels : List Text) (remaining : ℤ)
    → All (Lacks b'/') levels
    → Holds (All Plain) (normalize_levels levels remaining)
unfolding normalize_levels
normalize_levels-Plain [] remaining h = tt
normalize_levels-Plain (level ∷ levels) remaining (hl, h) =
    let n = max_name remaining (length levels) in
    let cut = cut_level-Plain (underscored level) n (underscored-Plain level hl) in
    elim (Option-cases (cut_level (underscored level) n)) [
      | inl e ↦ rw (e, normalize_levels) tt
      | inr (last, e) ↦
          rw (e, normalize_levels)
            (join_level-Plain _ last (normalize_levels-Plain levels _ h) (rw e at cut))
    ]

reverse-Lacks : (levels : List Text) → All (Lacks b'/') levels → All (Lacks b'/') (reverse levels)
reverse-Lacks [] h = tt
reverse-Lacks (level ∷ levels) (hl, h) =
    rw reverse-cons
      (All-append (Lacks b'/') (reverse levels) (level ∷ []) (reverse-Lacks levels h) (hl, tt))

named-Plain :
    (account : Text) (path : Option Text) (name : Text)
    → All Plain account
    → Holds (All Plain) path
    → named account path ≡ ok name
    → All Plain name
unfolding named
named-Plain account none name ha hp h = cc
named-Plain account (some p) name ha hp h =
    let e : account ++ p ≡ name = cc in rw (← e) (All-append Plain account p ha hp)

both : (s : Text) → Lacks b'/' s → Lacks b':' s → All Plain s
both [] h k = tt
both (c ∷ s) (h, hs) (k, ks) = ((h, k), both s hs ks)

-- The part before the first slash.
abbrev pub head_part : Text → Text
head_part role_arn = first (split role_arn b'/')

normalize_parts-Plain :
    (role_arn p : Text) (parts : List Text) (name : Text)
    → All (Lacks b'/') parts
    → Lacks b':' (account_id (first parts) p)
    → normalize_parts role_arn p parts ≡ ok name
    → All Plain name
unfolding normalize_parts normalize_path
normalize_parts-Plain role_arn p [] name hs colon h = cc
normalize_parts-Plain role_arn p (part ∷ []) name hs colon h = cc
normalize_parts-Plain role_arn p (part ∷ level ∷ levels) name (hp, hl) colon h =
    named-Plain (account_id part p) _ name
      (both (account_id part p) (account_id-All _ part p hp) colon)
      (normalize_levels-Plain (reverse (level ∷ levels)) _ (reverse-Lacks (level ∷ levels) hl)) h

-- If the account, which is what stands before the first slash without the prefix and without
-- `:role`, holds no colon, then the name of the session holds neither a colon nor a slash.
pub normalize_role_arn-Plain :
    (role_arn role_arn_prefix name : Text)
    → Lacks b':' (account_id (head_part role_arn) role_arn_prefix)
    → normalize_role_arn role_arn role_arn_prefix ≡ ok name
    → All Plain name
unfolding normalize_role_arn
normalize_role_arn-Plain role_arn role_arn_prefix name =
    normalize_parts-Plain role_arn role_arn_prefix (split role_arn b'/') name
      (split-Lacks role_arn b'/')

-- The levels behind the first slash: their number is the number of slashes.
abbrev pub levels_of : Text → List Text
levels_of role_arn = rest_of (split role_arn b'/')

-- The bytes of the account and the levels that are too many for it.
abbrev pub TooDeep : Text → List Text → Type 0
TooDeep account levels = 65 < length account + length levels * 2

room_iff :
    (a n : ℕ)
    → (¬ (pos (n * 2 + 1) ≤ℤ pos role_session_name_max_size -ℤ pos a)) ↔ (65 < a + suc n * 2)
unfolding ◌-ℤ◌
room_iff a n = ground arith

levels-panic :
    (account : Text) (levels : List Text)
    → levels ≢ []
    → let remaining = pos role_session_name_max_size -ℤ pos (length account) in
      (normalize_levels levels remaining ≡ none) ↔ TooDeep account levels
levels-panic account [] ne = absurd (ne refl)
levels-panic account (level ∷ levels) ne =
    let remaining = pos role_session_name_max_size -ℤ pos (length account) in
    let (there, back) = normalize_levels-panics level levels remaining in
    let (to, from) = room_iff (length account) (length levels) in
    (λ e. to (there e), λ deep. back (from deep))

named-panic : (account : Text) (path : Option Text) → (named account path ≡ panic) ↔ (path ≡ none)
unfolding named
named-panic account none = ground arith
named-panic account (some p) = ground arith

normalize_parts-panic :
    (role_arn p : Text) (parts : List Text)
    → (normalize_parts role_arn p parts ≡ panic)
      ↔ ((rest_of parts ≢ []) × TooDeep (account_id (first parts) p) (rest_of parts))
unfolding normalize_parts normalize_path
normalize_parts-panic role_arn p [] = (λ e. absurd (cc), λ h. absurd (h.0 refl))
normalize_parts-panic role_arn p (part ∷ []) = (λ e. absurd (cc), λ h. absurd (h.0 refl))
normalize_parts-panic role_arn p (part ∷ level ∷ levels) =
    let account = account_id part p in
    let path = reverse (level ∷ levels) in
    let nonempty : path ≢ [] =
      rw (reverse-cons level levels) (concat-ne-nil level (reverse levels)) in
    let same : length path ≡ length (level ∷ levels) = length-reverse (level ∷ levels) in
    let (there, back) = levels-panic account path nonempty in
    let (to, from) =
      named-panic account
        (normalize_levels path (pos role_session_name_max_size -ℤ pos (length account))) in
    (λ e. (cons-ne-nil level levels, rw same at (there (to e))), λ h. from (back (rw same h.1)))

-- normalizeRoleARN panics exactly for an ARN with a slash in which the bytes of the account and
-- twice the number of levels behind the first slash exceed 65.
pub normalize_role_arn-panics :
    (role_arn role_arn_prefix : Text)
    → (normalize_role_arn role_arn role_arn_prefix ≡ panic) ↔ (
        (levels_of role_arn ≢ [])
        × TooDeep (account_id (head_part role_arn) role_arn_prefix) (levels_of role_arn))
unfolding normalize_role_arn
normalize_role_arn-panics role_arn role_arn_prefix =
    normalize_parts-panic role_arn role_arn_prefix (split role_arn b'/')
