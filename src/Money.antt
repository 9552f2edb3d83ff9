-- ===== src/Money.antt =====
-- internal/money/money.go: amounts in minor units (hundredths) as int64, read from text, printed,
-- and split among participants. An amount that may be negative is a `ℤ`; where the code has made
-- sure that it is not, a `ℕ`. Sums of int64 keep their wrap-around written out.
pub mod Parse
pub mod RoundTrip
pub mod Split
pub mod Manual
mod Tests
use mlakp_backend.Base.{
  ℕ, zero, suc, ◌+◌, ◌-◌, ◌*◌, ◌/◌, ◌%◌, ◌^◌, ◌≤◌, Bool, true, false, not, ◌&&◌, ◌||◌, Option, none,
  some, List, [], ◌∷◌, ◌++◌, ltb, leb, ◌==◌, if◌then◌else◌, Result, ok, err, ◌>>=◌, ◌>>◌, fail_if,
  ℤ, pos, negsuc, length,
}
use mlakp_backend.Text.{
  Text, is_empty, byte_length, trim_space, contains_char, cut, has_prefix_char, lit,
}
use mlakp_backend.Decimal.{max_int64, is_digit, parse_int, decimal, decimal_two}

-- The error values of the package.
pub data MoneyError : Type 0 where
  invalid_amount amount_not_positive invalid_split split_mismatch : MoneyError

-- `MinorUnitsPerMajor`
abbrev pub minor_units_per_major : ℕ
minor_units_per_major = 100

unfoldable pub is_digits : Text → Bool
is_digits [] = true
is_digits (c ∷ s) = is_digit c && is_digits s

-- `for len(minorText) < 2 { minorText += "0" }`, by the rounds that are left.
unfoldable pub pad_zeros : ℕ → Text → Text
pad_zeros zero s = s
pad_zeros (suc rounds) s = pad_zeros rounds (s ++ b'0' ∷ [])

abbrev pub pad_minor : Text → Text
pad_minor s = pad_zeros (2 - byte_length s) s

-- The texts before and behind the point; "00" behind it where there is no point.
unfoldable pub amount_parts : Text → Result MoneyError (Text × Text)
amount_parts value = elim (cut value b'.') [
  | none ↦ ok (value, lit "00")
  | some (major_text, minor_text) ↦
      if is_empty minor_text || contains_char minor_text b'.' || ltb 2 (byte_length minor_text)
      then err invalid_amount
      else ok (major_text, minor_text)
]

abbrev pub or_invalid : Option ℕ → Result MoneyError ℕ
or_invalid none = err invalid_amount
or_invalid (some n) = ok n

unfoldable pub minor_of_parts : Text → Text → Result MoneyError ℕ
minor_of_parts major_text minor_text = do
  fail_if (is_empty major_text || not (is_digits major_text)) invalid_amount
  fail_if (not (is_digits minor_text)) invalid_amount
  major ← or_invalid (parse_int major_text)
  minor ← or_invalid (parse_int (pad_minor minor_text))
  fail_if (ltb ((max_int64 - minor) / minor_units_per_major) major) invalid_amount
  ok ((major * minor_units_per_major + minor) % 2 ^ 64)

-- `ParseMinor`
unfoldable pub parse_minor : Text → Result MoneyError ℕ
parse_minor text = do
  let value = trim_space text
  fail_if (is_empty value) invalid_amount
  fail_if (has_prefix_char value b'-' || has_prefix_char value b'+') invalid_amount
  parts ← amount_parts value
  minor_of_parts parts.0 parts.1

-- `-amountMinor` of a negative int64: the least one is its own negation.
unfoldable pub negate : ℕ → ℤ
negate n = if leb (suc n) max_int64 then pos (suc n) else negsuc n

-- `%s%d.%02d` of the sign and the quotient and remainder by 100, which Go truncates towards zero.
unfoldable pub print_amount : Text → ℤ → Text
print_amount sign (pos n) =
    sign
    ++ (decimal (n / minor_units_per_major) ++ (b'.' ∷ decimal_two (n % minor_units_per_major)))
print_amount sign (negsuc n) =
    let major = suc n / minor_units_per_major in
    let minor = suc n % minor_units_per_major in
    sign
    ++ ((if major == 0 then decimal 0 else b'-' ∷ decimal major)
        ++ (b'.' ∷ (if minor == 0 then decimal_two 0 else b'-' ∷ decimal minor)))

-- `FormatMinor`
unfoldable pub format_minor : ℤ → Text
unfolding negate print_amount
format_minor (pos n) = print_amount [] (pos n)
format_minor (negsuc n) = print_amount (b'-' ∷ []) (negate n)

-- `ValidatePositive`
unfoldable pub validate_positive : ℤ → Result MoneyError (Unit {0})
validate_positive (pos zero) = err amount_not_positive
validate_positive (pos (suc n)) = ok tt
validate_positive (negsuc n) = err amount_not_positive

-- The loop of `SplitEqual` from index `i`, by the rounds that are left: the last `remainder` shares
-- are one unit larger. The remainder is below the number of participants.
unfoldable pub equal_shares : (rounds i participants base remainder : ℕ) → List ℕ
equal_shares zero i participants base remainder = []
equal_shares (suc rounds) i participants base remainder =
    (if leb (participants - remainder) i then base + 1 else base)
    ∷ equal_shares rounds (i + 1) participants base remainder

unfoldable pub split_positive : (total participants : ℕ) → Result MoneyError (List ℕ)
unfolding equal_shares
split_positive total participants = do
  fail_if (total == 0 || participants == 0) invalid_split
  let base = total / participants
  let remainder = total % participants
  fail_if (base == 0) invalid_split
  ok (equal_shares participants 0 participants base remainder)

-- `SplitEqual`
unfoldable pub split_equal : (total participants : ℤ) → Result MoneyError (List ℕ)
unfolding split_positive
split_equal (pos total) (pos participants) = split_positive total participants
split_equal (pos total) (negsuc participants) = err invalid_split
split_equal (negsuc total) participants = err invalid_split

-- The values of Go's type int64.
abbrev pub IsInt64 : ℤ → Type 0
IsInt64 (pos n) = n ≤ max_int64
IsInt64 (negsuc n) = n ≤ max_int64

-- The loop of `ValidateManualSplit` over the shares, with the sum so far.
unfoldable pub manual_sum : List ℤ → ℕ → Result MoneyError ℕ
manual_sum [] sum = ok sum
manual_sum (negsuc n ∷ shares) sum = err invalid_split
manual_sum (pos zero ∷ shares) sum = err invalid_split
manual_sum (pos (suc n) ∷ shares) sum =
    let rest = manual_sum shares ((sum + suc n) % 2 ^ 64) in
    if ltb (max_int64 - suc n) sum then err invalid_split else rest

-- `ValidateManualSplit`
unfoldable pub validate_manual_split : ℤ → List ℤ → Result MoneyError (Unit {0})
validate_manual_split (negsuc n) shares = err invalid_split
validate_manual_split (pos total) shares = do
  fail_if (total == 0 || length shares == 0) invalid_split
  sum ← manual_sum shares 0
  if sum == total then ok tt else err split_mismatch
