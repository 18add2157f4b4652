-- ===== src/Credentials/SessionName/Levels.antt =====
-- The recursion of normalizePath over natural numbers, where it does not panic.
use mathlib.Core.List.{reverse, reverse-cons}
use kube_aws_iam_controller.Base.Tests.{
  ℕ, zero, suc, ◌+◌, ◌-◌, ◌*◌, ◌≤◌, ◌<◌, ◌≡◌, refl, ap, none, some, arith,
}
use kube_aws_iam_controller.Base.Lists.{
  List, [], ◌∷◌, ◌++◌, length, take, All, All-append, length-append, length-take, append_assoc,
  append-nil,
}
use kube_aws_iam_controller.Base.Int.{ℤ, pos, negsuc, ◌-ℤ◌, ◌≤ℤ◌}
use kube_aws_iam_controller.Base.Text.{Text, codes, replace_byte}
use kube_aws_iam_controller.Credentials.SessionName.{
  cut_level, slice_to, underscored, max_name, join_level, normalize_levels,
}

take_all {ℓ} : {A : Type ℓ} (n : ℕ) (s : List A) → length s ≤ n → take n s ≡ s
take_all zero [] h = refl
take_all zero (c ∷ s) h = absurd (omega arith)
take_all (suc n) [] h = refl
take_all (suc n) (c ∷ s) h = ap (λ t. c ∷ t) (take_all n s (omega arith))

pub cut_level-pos : (s : Text) (n : ℕ) → cut_level s (pos n) ≡ some (take n s)
unfolding cut_level slice_to
cut_level-pos s n = ground (arith, take_all n s)

pub cut_level-negsuc : (s : Text) (n : ℕ) → cut_level s (negsuc n) ≡ none
unfolding cut_level slice_to
cut_level-negsuc s n = ground arith

-- The number of bytes that the last of `suc others` levels may keep.
abbrev pub room : ℕ → ℕ → ℕ
room r others = r - others * 2 - 1

-- Levels from the last to the first, each cut to its room, each behind a dot.
unfoldable pub fit : List Text → ℕ → Text
fit [] r = []
fit (level ∷ levels) r =
    let last = take (room r (length levels)) (underscored level) in
    fit levels (r - length last - 1) ++ codes "." ++ last

max_name-pos : (r n : ℕ) → n * 2 + 1 ≤ r → max_name (pos r) n ≡ pos (room r n)
unfolding ◌-ℤ◌
max_name-pos r n h = ground arith

rest-pos : (r n : ℕ) → n + 1 ≤ r → pos r -ℤ pos n -ℤ pos 1 ≡ pos (r - n - 1)
unfolding ◌-ℤ◌
rest-pos r n h = ground arith

max_name-neg : (r n : ℕ) → r < n * 2 + 1 → (k : ℕ) × (max_name (pos r) n ≡ negsuc k)
unfolding ◌-ℤ◌
max_name-neg r n h = (n * 2 - r, ground arith)

max_name-negsuc : (r n : ℕ) → max_name (negsuc r) n ≡ negsuc (r + n * 2 + 1)
unfolding ◌-ℤ◌
max_name-negsuc r n = ground arith

normalize_levels_step :
    (level : Text) (levels : List Text) (r : ℕ)
    → length levels * 2 + 1 ≤ r
    → normalize_levels (level ∷ levels) (pos r)
      ≡ join_level
          (normalize_levels levels
            (pos (r - length (take (room r (length levels)) (underscored level)) - 1)))
          (take (room r (length levels)) (underscored level))
unfolding normalize_levels
normalize_levels_step level levels r h =
    let last = take (room r (length levels)) (underscored level) in
    let short = length-take (room r (length levels)) (underscored level) in
    let fits : length last + 1 ≤ r = omega arith in
    let e = max_name-pos r (length levels) h in
    let c = cut_level-pos (underscored level) (room r (length levels)) in
    let k = rest-pos r (length last) fits in ground (arith, e, c, k)

-- The room of a level leaves two bytes for each level before it.
pub rest_room :
    (level : Text) (n r : ℕ)
    → n * 2 + 1 ≤ r
    → n * 2 ≤ r - length (take (room r n) (underscored level)) - 1
rest_room level n r h = omega (arith, length-take (room r n) (underscored level))

-- With two bytes for each level the recursion cuts each level to its room and does not panic.
normalize_levels-fit :
    (levels : List Text) (r : ℕ)
    → length levels * 2 ≤ r
    → normalize_levels levels (pos r) ≡ some (fit levels r)
unfolding fit
normalize_levels-fit [] r h = unfold normalize_levels in refl
normalize_levels-fit (level ∷ levels) r h =
    let short = rest_room level (length levels) r (omega arith) in
    rw (normalize_levels_step level levels r (omega arith), normalize_levels-fit levels _ short)

-- One byte less is enough at the last level.
pub normalize_levels-fit_last :
    (level : Text) (levels : List Text) (r : ℕ)
    → length levels * 2 + 1 ≤ r
    → normalize_levels (level ∷ levels) (pos r) ≡ some (fit (level ∷ levels) r)
unfolding fit
normalize_levels-fit_last level levels r h = rw (
  normalize_levels_step level levels r h,
  normalize_levels-fit levels _ (rest_room level (length levels) r h),
)

-- With less than that the last level panics.
pub normalize_levels-none :
    (level : Text) (levels : List Text) (remaining : ℤ)
    → ¬ (pos (length levels * 2 + 1) ≤ℤ remaining)
    → normalize_levels (level ∷ levels) remaining ≡ none
unfolding normalize_levels
normalize_levels-none level levels (pos r) h =
    let (k, e) = max_name-neg r (length levels) (omega arith) in
    ground (arith, e, cut_level-negsuc (underscored level) k)
normalize_levels-none level levels (negsuc r) h =
    let k = r + length levels * 2 + 1 in
    ground (arith, cut_level-negsuc (underscored level) k, max_name-negsuc r (length levels))

pub fit-cons :
    (level : Text) (levels : List Text) (r : ℕ)
    → let kept = take (room r (length levels)) (underscored level) in
      fit (level ∷ levels) r ≡ fit levels (r - length kept - 1) ++ codes "." ++ kept
unfolding fit
fit-cons level levels r = refl

pub length-dot :
    (before last : Text) → length (before ++ codes "." ++ last) ≡ length before + 1 + length last
length-dot before last =
    let dot = codes "." in
    omega (arith, length-append {0} (before ++ dot) last, length-append {0} before dot)

length-fit-cons :
    (level : Text) (levels : List Text) (r : ℕ)
    → let kept = length (take (room r (length levels)) (underscored level)) in
      length (fit (level ∷ levels) r) ≡ length (fit levels (r - kept - 1)) + 1 + kept
length-fit-cons level levels r =
    let last = take (room r (length levels)) (underscored level) in
    rw (fit-cons level levels r) (length-dot (fit levels (r - length last - 1)) last)

-- The result fits into the remaining bytes.
pub length-fit_last :
    (level : Text) (levels : List Text) (r : ℕ)
    → length levels * 2 + 1 ≤ r
    → length (fit (level ∷ levels) r) ≤ r
length-fit_last level [] r h =
    let none_left : length (fit [] (r - length (take (room r 0) (underscored level)) - 1)) ≡ 0 =
      unfold fit in refl in
    omega (arith, length-fit-cons level [] r, length-take (room r 0) (underscored level))
length-fit_last level (level' ∷ levels) r h =
    let n = suc (length levels) in
    let rest = r - length (take (room r n) (underscored level)) - 1 in
    let short : length levels * 2 + 1 ≤ rest = omega (arith, rest_room level n r) in
    let ih = length-fit_last level' levels rest short in
    omega (
      arith,
      ih,
      length-fit-cons level (level' ∷ levels) r,
      length-take (room r n) (underscored level),
    )

-- Each level is cut to at least one byte, if it has one, and stands behind a dot; the levels are
-- given from the last to the first.
abbrev pub Shortened : List Text → Text → Type 0
Shortened [] out = out ≡ []
Shortened (level ∷ levels) out =
    (k : ℕ) × (before : Text) × (1 ≤ k)
    × (out ≡ before ++ codes "." ++ take k (underscored level))
    × Shortened levels before

pub fit-Shortened :
    (levels : List Text) (r : ℕ) → length levels * 2 ≤ r → Shortened levels (fit levels r)
unfolding fit
fit-Shortened [] r h = refl
fit-Shortened (level ∷ levels) r h =
    let n = length levels in
    let short = rest_room level n r (omega arith) in
    (room r n, _, omega arith, refl, fit-Shortened levels _ short)

-- Each level whole, behind a dot.
unfoldable pub dotted : List Text → Text
dotted [] = []
dotted (level ∷ levels) = codes "." ++ underscored level ++ dotted levels

pub dotted-append : (xs ys : List Text) → dotted (xs ++ ys) ≡ dotted xs ++ dotted ys
unfolding dotted
dotted-append [] ys = refl
dotted-append (x ∷ xs) ys = simp (dotted-append xs, append_assoc)

length-underscored : (s : Text) → length (underscored s) ≡ length s
unfolding replace_byte
length-underscored [] = refl
length-underscored (c ∷ s) = ap suc (length-underscored s)

abbrev pub Nonempty : Text → Type 0
Nonempty s = 0 < length s

pub le-length-dotted :
    (levels : List Text) → All Nonempty levels → length levels * 2 ≤ length (dotted levels)
unfolding dotted
le-length-dotted [] h = omega arith
le-length-dotted (level ∷ levels) (nonempty, h) = omega (
  arith,
  le-length-dotted levels h,
  length-append {0} (underscored level) (dotted levels),
  length-underscored level,
)

pub length-dotted-reverse :
    (levels : List Text) → length (dotted (reverse levels)) ≡ length (dotted levels)
unfolding dotted
length-dotted-reverse [] = refl
length-dotted-reverse (level ∷ levels) =
    let last : List Text = level ∷ [] in
    rw (reverse-cons, dotted-append)
      (omega (
        arith,
        length-append {0} (dotted (reverse levels)) (dotted last),
        length-append {0} (underscored level) [],
        length-append {0} (underscored level) (dotted levels),
        length-dotted-reverse levels,
      ))

pub reverse-Nonempty : (levels : List Text) → All Nonempty levels → All Nonempty (reverse levels)
reverse-Nonempty [] h = tt
reverse-Nonempty (level ∷ levels) (nonempty, h) =
    rw reverse-cons
      (All-append Nonempty (reverse levels) (level ∷ []) (reverse-Nonempty levels h) (nonempty, tt))

-- Levels that fit whole are not cut.
pub fit-whole :
    (levels : List Text) (r : ℕ)
    → All Nonempty levels
    → length (dotted levels) ≤ r
    → fit levels r ≡ dotted (reverse levels)
unfolding fit dotted
fit-whole [] r h fits = refl
fit-whole (level ∷ levels) r (nonempty, h) fits =
    let n = length levels in
    let whole = length-append {0} (underscored level) (dotted levels) in
    let others = le-length-dotted levels h in
    let all = take_all (room r n) (underscored level) (omega arith) in
    rw
      (
        all,
        fit-whole levels (r - length (underscored level) - 1) h (omega arith),
        reverse-cons,
        dotted-append,
      )
      (simp (append-nil, append_assoc))
