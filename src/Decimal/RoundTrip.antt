-- ===== src/Decimal/RoundTrip.antt =====
-- Every `int64` is read back from its decimal print.
use native.Mathlib.Nat.{pow-suc}
use kube_aws_iam_controller.Base.Tests.{
  ℕ, zero, suc, ◌+◌, ◌*◌, ◌/◌, ◌%◌, ◌^◌, ◌≤◌, ◌<◌, ◌≡◌, ap, false, arith, ltb, Bool-cases, inl, inr,
}
use kube_aws_iam_controller.Base.Lists.{[], ◌∷◌, ◌++◌}
use kube_aws_iam_controller.Base.Int.{ℤ, pos, negsuc}
use kube_aws_iam_controller.Base.Outcome.{ok, Outcome-cases}
use kube_aws_iam_controller.Base.Text.{Text}
use kube_aws_iam_controller.Decimal.{
  digits, max_digits, format_int, max_uint, push_digit, parse_digits, parse_uint, signed, parse_int,
}

-- An integer of 64 bits.
abbrev pub IsInt64 : ℤ → Type 0
IsInt64 (pos n) = n < 2 ^ 63
IsInt64 (negsuc n) = n < 2 ^ 63

tenth_lt : (n p : ℕ) → n < p * 10 → n / 10 < p
tenth_lt n p h = omega arith

push_digit-ok :
    (n d : ℕ) → d < 10 → n * 10 + d ≤ max_uint → push_digit n (b'0' + d) ≡ ok (n * 10 + d)
unfolding push_digit
push_digit-ok n d hd h = ground arith

parse_digits-snoc :
    (s : Text) (n m c : ℕ) → parse_digits s n ≡ ok m → parse_digits (s ++ c ∷ []) n ≡ push_digit m c
unfolding parse_digits
parse_digits-snoc [] n m c h = ground arith
parse_digits-snoc (c' ∷ s) n m c h = elim (Outcome-cases (push_digit n c')) [
  | inl (k, e) ↦ ground (arith, parse_digits-snoc s k m c)
  | inr fails ↦ ground arith
]

parse_digits-one : (n d : ℕ) → parse_digits (d ∷ []) n ≡ push_digit n d
unfolding parse_digits
parse_digits-one n d = ground arith

parse_digits-digits :
    (fuel n : ℕ) → n < 10 ^ suc fuel → n ≤ max_uint → parse_digits (digits (suc fuel) n) 0 ≡ ok n
unfolding digits
parse_digits-digits zero n h fits =
    let small : n < 10 = omega arith in
    ground (arith, parse_digits-one 0 (b'0' + n), push_digit-ok 0 n)
parse_digits-digits (suc fuel) n h fits = elim (Bool-cases (ltb n 10)) [
  | inl small ↦ rw small (ground (arith, parse_digits-one 0 (b'0' + n), push_digit-ok 0 n))
  | inr large ↦
      let fewer : n / 10 < 10 ^ suc fuel = tenth_lt n (10 ^ suc fuel) (rw pow-suc at h) in
      rw
        (
          large,
          parse_digits-snoc (digits (suc fuel) (n / 10)) 0 (n / 10) (b'0' + n % 10)
              (parse_digits-digits fuel (n / 10) fewer (omega arith)),
          push_digit-ok (n / 10) (n % 10) (omega arith) (omega arith),
        )
        (ap ok (omega arith))
]

digits-head :
    (fuel n : ℕ) → (c : ℕ) × (s : Text) × (digits (suc fuel) n ≡ c ∷ s) × (b'0' ≤ c) × (c ≤ b'9')
unfolding digits
digits-head zero n = elim (Bool-cases (ltb n 10)) [
  | inl small ↦ (b'0' + n, [], rw small, omega arith, ground arith)
  | inr large ↦ (b'0' + n % 10, [], rw large, omega arith, omega arith)
]
digits-head (suc fuel) n = elim (Bool-cases (ltb n 10)) [
  | inl small ↦ (b'0' + n, [], rw small, omega arith, ground arith)
  | inr large ↦
      let (c, s, e, lo, hi) = digits-head fuel (n / 10) in
      (c, s ++ (b'0' + n % 10) ∷ [], rw (large, e), lo, hi)
]

parse_uint-digits : (n : ℕ) → n ≤ 2 ^ 63 → parse_uint (digits max_digits n) ≡ ok n
unfolding parse_uint
parse_uint-digits n h =
    let (c, s, e, lo, hi) = digits-head 19 n in
    rw e (rw e at (parse_digits-digits 19 n (omega arith) (omega arith)))

parse_int-digit :
    (c : ℕ) (s : Text) → b'0' ≤ c → parse_int (c ∷ s) ≡ signed false (parse_uint (c ∷ s))
unfolding parse_int
parse_int-digit c s h = ground arith

-- `strconv.ParseInt` reads back what `fmt.Sprintf` prints, for every `int64`.
pub parse_int-format_int : (i : ℤ) → IsInt64 i → parse_int (format_int i) ≡ ok i
unfolding format_int
parse_int-format_int (pos n) h =
    let (c, s, e, lo, hi) = digits-head 19 n in
    let read : parse_uint (c ∷ s) ≡ ok n = rw (← e) (parse_uint-digits n (omega arith)) in
    rw (e, parse_int-digit c s lo, read) (unfold signed in ground arith)
parse_int-format_int (negsuc n) h =
    unfold parse_int signed in rw (parse_uint-digits (suc n) h) (ground arith)
