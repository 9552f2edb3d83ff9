-- ===== src/Decimal.antt =====
-- Decimal numbers as `strconv.ParseInt` (base 10, 64 bits, on digits) reads them and as the verb
-- `%d` of package `fmt` prints them.
pub mod Laws
use mlakp_backend.Base.{
  ℕ, zero, suc, ◌+◌, ◌-◌, ◌*◌, ◌/◌, ◌%◌, ◌^◌, Bool, true, false, not, ◌&&◌, ◌||◌, Option, none,
  some, List, [], ◌∷◌, ltb, leb, ◌==◌, if◌then◌else◌,
}
use mlakp_backend.Text.{Text}

-- `math.MaxInt64`
abbrev pub max_int64 : ℕ
max_int64 = 2 ^ 63 - 1

abbrev pub is_digit : ℕ → Bool
is_digit c = leb b'0' c && leb c b'9'

-- The number that digits spell behind `n`, with no bound.
abbrev pub value : ℕ → Text → ℕ
value n [] = n
value n (c ∷ s) = value (n * 10 + (c - b'0')) s

-- `strconv.ParseInt(s, 10, 64)` of a text of digits: an error on the empty text and out of range.
unfoldable pub parse_int : Text → Option ℕ
parse_int [] = none
parse_int (c ∷ s) = let n = value 0 (c ∷ s) in if leb n max_int64 then some n else none

-- The digits of `n` in front of `out`; the fuel is any number that is not below `n`.
pub emit : ℕ → ℕ → Text → Text
emit zero n out = out
emit (suc fuel) n out =
    let rest = emit fuel (n / 10) ((b'0' + n % 10) ∷ out) in if n == 0 then out else rest

-- `%d` of a number that is not negative.
unfoldable pub decimal : ℕ → Text
unfolding emit
decimal n = if n == 0 then b'0' ∷ [] else emit n n []

-- `%02d` of a number that is not negative: a zero in front of a single digit.
unfoldable pub decimal_two : ℕ → Text
unfolding decimal
decimal_two n = if ltb n 10 then b'0' ∷ decimal n else decimal n
