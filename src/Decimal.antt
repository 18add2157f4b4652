-- ===== src/Decimal.antt =====
-- Go's decimal print and parse of an `int64`: `fmt.Sprintf("%d", i)` and
-- `strconv.ParseInt(s, 10, 64)`, by which a generation is written into a secret and read back.
pub mod RoundTrip
use kube_aws_iam_controller.Base.Tests.{
  ℕ, zero, suc, ◌+◌, ◌-◌, ◌*◌, ◌/◌, ◌%◌, ◌^◌, ◌≡◌, refl, Bool, true, false, not, ◌&&◌, ltb, leb,
  ◌==◌, if◌then◌else◌,
}
use kube_aws_iam_controller.Base.Lists.{[], ◌∷◌, ◌++◌}
use kube_aws_iam_controller.Base.Int.{ℤ, pos, negsuc}
use kube_aws_iam_controller.Base.Outcome.{Outcome, ok, err, panic}
use kube_aws_iam_controller.Base.Text.{Text, codes}

-- The decimal digits of `n`, at most `fuel` of them.
unfoldable pub digits : ℕ → ℕ → Text
digits zero n = []
digits (suc fuel) n =
    let more = digits fuel (n / 10) ++ (b'0' + n % 10) ∷ [] in
    if ltb n 10 then (b'0' + n) ∷ [] else more

-- An `int64` has at most 19 digits.
abbrev pub max_digits : ℕ
max_digits = 20

unfoldable pub format_int : ℤ → Text
format_int (pos n) = digits max_digits n
format_int (negsuc n) = b'-' ∷ digits max_digits (suc n)

-- The reason of the error that `strconv` returns.
abbrev pub syntax_error : Text
syntax_error = codes "invalid syntax"

abbrev pub range_error : Text
range_error = codes "value out of range"

abbrev pub max_uint : ℕ
max_uint = 2 ^ 64 - 1

abbrev pub is_digit : ℕ → Bool
is_digit c = leb b'0' c && leb c b'9'

-- One digit of the loop of `strconv.ParseUint`, whose sum may wrap around.
unfoldable pub push_digit : ℕ → ℕ → Outcome ℕ
push_digit n c =
    let d = c - b'0' in
    let sum = (n * 10 + d) % 2 ^ 64 in
    if not (is_digit c)
    then err syntax_error
    else if leb (max_uint / 10 + 1) n
    then err range_error
    else if ltb sum (n * 10)
    then err range_error
    else ok sum

unfoldable pub parse_digits : Text → ℕ → Outcome ℕ
parse_digits [] n = ok n
parse_digits (c ∷ s) n = elim (push_digit n c) [
  | ok m ↦ parse_digits s m
  | err e ↦ err e
  | panic ↦ panic
]

unfoldable pub parse_uint : Text → Outcome ℕ
parse_uint [] = err syntax_error
parse_uint (c ∷ s) = parse_digits (c ∷ s) 0

-- The value with its sign, if it fits.
unfoldable pub signed : Bool → Outcome ℕ → Outcome ℤ
signed false (ok n) = if leb (2 ^ 63) n then err range_error else ok (pos n)
signed true (ok zero) = ok (pos 0)
signed true (ok (suc n)) = if ltb (2 ^ 63) (suc n) then err range_error else ok (negsuc n)
signed negative (err e) = err e
signed negative panic = panic

unfoldable pub parse_int : Text → Outcome ℤ
parse_int [] = err syntax_error
parse_int (c ∷ s) =
    if c == b'-'
    then signed true (parse_uint s)
    else if c == b'+'
    then signed false (parse_uint s)
    else signed false (parse_uint (c ∷ s))

parse_int_test :
    (parse_int (codes "-9223372036854775808") ≡ ok (negsuc 9223372036854775807))
    × (parse_int (codes "9223372036854775808") ≡ err range_error)
    × (parse_int (codes "99999999999999999999") ≡ err range_error)
    × (parse_int (codes "+7") ≡ ok (pos 7))
    × (parse_int (codes "1x") ≡ err syntax_error)
    × (parse_int (codes "-") ≡ err syntax_error)
unfolding parse_int parse_uint parse_digits push_digit signed
parse_int_test = (refl, refl, refl, refl, refl, refl)
