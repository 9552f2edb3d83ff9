-- ===== src/Money/RoundTrip.antt =====
-- The texts that `ParseMinor` accepts, and those that `FormatMinor` prints.
use mlakp_backend.Base.{
  ℕ, ◌+◌, ◌*◌, ◌/◌, ◌%◌, ◌≤◌, ◌<◌, ◌≡◌, ◌≢◌, refl, ap, ◌∙◌, ◌-◌, true, false, [], ◌∷◌, ◌++◌, arith,
  All-append, length, ok, pos,
}
use mlakp_backend.Text.{Text, trim_space, contains_char, is_empty}
use mlakp_backend.Text.Laws.{NoSpace, trim_space_of, is_space-graphic, cut_at, cut_absent}
use mlakp_backend.Decimal.{max_int64, is_digit, value, decimal}
use mlakp_backend.Decimal.Laws.{
  IsDigits, value-decimal, IsDigits-NoSpace, byte_length-digits, decimal-IsDigits, decimal-ne-nil,
  decimal_two_lem, parse_int-value,
}
use mlakp_backend.Money.{
  pad_zeros, pad_minor, amount_parts, minor_of_parts, parse_minor, format_minor,
}
use mlakp_backend.Money.Parse.{
  Denotes, whole, tenths, hundredths, IsDigits-is_digits, pad_one, pad_two,
}

minor_of_parts_made :
    (a b : Text)
    → a ≢ []
    → IsDigits a
    → IsDigits b
    → pad_minor b ≢ []
    → value 0 (pad_minor b) < 100
    → value 0 a * 100 + value 0 (pad_minor b) ≤ max_int64
    → minor_of_parts a b ≡ ok (value 0 a * 100 + value 0 (pad_minor b))
unfolding minor_of_parts
minor_of_parts_made [] b na all_a all_b nb two fits = absurd (na refl)
minor_of_parts_made (c ∷ a) b na all_a all_b nb two fits =
    let major = parse_int-value (c ∷ a) na (omega arith) in
    let minor = parse_int-value (pad_minor b) nb (omega arith) in
    ground (arith, major, minor, IsDigits-is_digits (c ∷ a) all_a, IsDigits-is_digits b all_b)

no_point : (s : Text) → IsDigits s → contains_char s b'.' ≡ false
unfolding contains_char
no_point [] all = refl
no_point (c ∷ s) (h, all) = ground (arith, no_point s all)

-- Past the guards: a text that begins with a digit is read by its parts.
by_parts :
    (s t : Text) (c : ℕ) (a b : Text)
    → trim_space s ≡ c ∷ t
    → is_digit c ≡ true
    → amount_parts (c ∷ t) ≡ ok (a, b)
    → parse_minor s ≡ minor_of_parts a b
unfolding parse_minor
by_parts s t c a b same digit parts = rw (same, parts) (ground arith)

whole_parts : (m : Text) → IsDigits m → amount_parts m ≡ ok (m, b'0' ∷ b'0' ∷ [])
unfolding amount_parts
whole_parts m all = rw (cut_absent m b'.' (no_point m all), amount_parts) refl

point_parts :
    (m b : Text)
    → is_empty b ≡ false
    → IsDigits b
    → length b ≤ 2
    → IsDigits m
    → amount_parts (m ++ b'.' ∷ b) ≡ ok (m, b)
unfolding amount_parts
point_parts m b some_digit all_b short all =
    rw (cut_at m b'.' b (no_point m all), amount_parts)
      (ground (arith, no_point b all_b, byte_length-digits b all_b))

digit_le : (d : ℕ) → is_digit d ≡ true → d - b'0' ≤ 9
digit_le d h = ground arith

pad_one-ne-nil : (d : ℕ) → is_digit d ≡ true → pad_minor (d ∷ []) ≢ []
unfolding pad_zeros
pad_one-ne-nil d h = rw (byte_length-digits (d ∷ []) (h, tt)) (λ e. cc)

pad_two-ne-nil : (d e : ℕ) → is_digit d ≡ true → is_digit e ≡ true → pad_minor (d ∷ e ∷ []) ≢ []
unfolding pad_zeros
pad_two-ne-nil d e h k = rw (byte_length-digits (d ∷ e ∷ []) (h, (k, tt))) (λ q. cc)

made_of :
    (m b : Text) (k : ℕ) {n : ℕ}
    → m ≢ []
    → IsDigits m
    → IsDigits b
    → pad_minor b ≢ []
    → value 0 (pad_minor b) ≡ k
    → k < 100
    → n ≡ value 0 m * 100 + k
    → n ≤ max_int64
    → minor_of_parts m b ≡ ok n
made_of m b k nm all all_b nb padded two exact fits =
    minor_of_parts_made m b nm all all_b nb (omega arith) (omega arith) ∙ ap ok (omega arith)

-- Every text that, white space at its ends aside, denotes an int64 is read as that number.
pub parse_minor_complete :
    (s : Text) {n : ℕ} → Denotes (trim_space s) n → n ≤ max_int64 → parse_minor s ≡ ok n
parse_minor_complete s (whole [] nm all same exact) fits = absurd (nm refl)
parse_minor_complete s (whole (c ∷ m) nm all same exact) fits =
    by_parts s m c _ _ same all.0 (whole_parts (c ∷ m) all)
    ∙ made_of (c ∷ m) (b'0' ∷ b'0' ∷ []) 0 nm all (refl, (refl, tt))
        (pad_two-ne-nil b'0' b'0' refl refl) (pad_two b'0' b'0' refl refl) (omega arith)
        (omega arith) fits
parse_minor_complete s (tenths [] d nm all hd same exact) fits = absurd (nm refl)
parse_minor_complete s (tenths (c ∷ m) d nm all hd same exact) fits =
    by_parts s _ c _ _ same all.0 (point_parts (c ∷ m) (d ∷ []) refl (hd, tt) (omega arith) all)
    ∙ made_of (c ∷ m) (d ∷ []) ((d - b'0') * 10) nm all (hd, tt) (pad_one-ne-nil d hd)
        (pad_one d hd) (omega (arith, digit_le d hd)) exact fits
parse_minor_complete s (hundredths [] d e nm all hd he same exact) fits = absurd (nm refl)
parse_minor_complete s (hundredths (c ∷ m) d e nm all hd he same exact) fits =
    by_parts s _ c _ _ same all.0
      (point_parts (c ∷ m) (d ∷ e ∷ []) refl (hd, (he, tt)) (omega arith) all)
    ∙ made_of (c ∷ m) (d ∷ e ∷ []) ((d - b'0') * 10 + (e - b'0')) nm all (hd, (he, tt))
        (pad_two-ne-nil d e hd he) (pad_two d e hd he) (omega (arith, digit_le d hd, digit_le e he))
        (omega arith) fits

format_minor-pos :
    (n : ℕ)
    → format_minor (pos n)
      ≡ decimal (n / 100) ++ b'.' ∷ (b'0' + n % 100 / 10) ∷ (b'0' + n % 100 % 10) ∷ []
unfolding format_minor
format_minor-pos n = rw (decimal_two_lem (n % 100) (omega arith))

digit_of : (k : ℕ) → k < 10 → is_digit (b'0' + k) ≡ true
digit_of k h = ground arith

format_minor-NoSpace : (n : ℕ) → NoSpace (format_minor (pos n))
format_minor-NoSpace n = rw (format_minor-pos n) (
    All-append _ (decimal (n / 100)) _ (IsDigits-NoSpace _ (decimal-IsDigits (n / 100))) (
      is_space-graphic b'.' (omega arith) (omega arith),
      IsDigits-NoSpace ((b'0' + n % 100 / 10) ∷ (b'0' + n % 100 % 10) ∷ [])
          (digit_of (n % 100 / 10) (omega arith), (digit_of (n % 100 % 10) (omega arith), tt)),
    ))

-- An int64 that is not negative is read back from its print.
pub parse_minor-format_minor : (n : ℕ) → n ≤ max_int64 → parse_minor (format_minor (pos n)) ≡ ok n
parse_minor-format_minor n fits =
    parse_minor_complete (format_minor (pos n))
      (hundredths (decimal (n / 100)) (b'0' + n % 100 / 10) (b'0' + n % 100 % 10)
        (decimal-ne-nil (n / 100)) (decimal-IsDigits (n / 100))
        (digit_of (n % 100 / 10) (omega arith)) (digit_of (n % 100 % 10) (omega arith))
        (trim_space_of _ (format_minor-NoSpace n) ∙ format_minor-pos n)
        (omega (arith, value-decimal (n / 100))))
      fits
