-- ===== src/Money/Tests.antt =====
-- Runs of package money on the inputs of internal/money/money_test.go, and on the least int64.
use mlakp_backend.Base.{
  ℕ, ◌+◌, ◌/◌, ◌≤◌, ◌<◌, ◌≡◌, ◌≢◌, refl, List, [], ◌∷◌, ok, err, pos, negsuc, length, sum, All, map,
  arith,
}
use mlakp_backend.Text.{lit, trim_space, byte_length, utf8_size, contains_char, cut}
use mlakp_backend.Decimal.{max_int64, parse_int, decimal, decimal_two}
use mlakp_backend.Money.{
  invalid_amount, invalid_split, split_mismatch, is_digits, pad_zeros, amount_parts, minor_of_parts,
  parse_minor, format_minor, split_equal, manual_sum, validate_manual_split,
}
use mlakp_backend.Money.Parse.{Denotes, whole, parse_minor_sound}
use mlakp_backend.Money.RoundTrip.{parse_minor_complete, parse_minor-format_minor}
use mlakp_backend.Money.Split.{IsSplittable, split_equal_sound, split_equal_complete}
use mlakp_backend.Money.Manual.{validate_manual_split_sound, validate_manual_split_complete}

parse_whole : parse_minor (lit " 12 ") ≡ ok 1200
unfolding parse_minor amount_parts minor_of_parts is_digits pad_zeros trim_space cut parse_int
    byte_length utf8_size
parse_whole = refl

parse_tenths : parse_minor (lit "12.5") ≡ ok 1250
unfolding parse_minor amount_parts minor_of_parts is_digits pad_zeros trim_space cut contains_char
    byte_length utf8_size parse_int
parse_tenths = refl

parse_three_places : parse_minor (lit "1.234") ≡ err invalid_amount
unfolding parse_minor amount_parts minor_of_parts is_digits pad_zeros trim_space cut contains_char
    byte_length utf8_size parse_int
parse_three_places = refl

format_sample : format_minor (negsuc 1204) ≡ lit "-12.05"
unfolding format_minor decimal decimal_two
format_sample = refl

-- The least int64 is printed with two signs and a signed fraction.
format_least : format_minor (negsuc max_int64) ≡ lit "--92233720368547758.-8"
unfolding format_minor decimal decimal_two
format_least = refl

split_sample : split_equal (pos 1000) (pos 3) ≡ ok (333 ∷ 333 ∷ 334 ∷ [])
unfolding split_equal
split_sample = refl

split_too_small : split_equal (pos 2) (pos 3) ≡ err invalid_split
unfolding split_equal
split_too_small = refl

manual_mismatch : validate_manual_split (pos 100) (pos 40 ∷ pos 50 ∷ []) ≡ err split_mismatch
unfolding validate_manual_split manual_sum
manual_mismatch = refl

manual_overflow : validate_manual_split (pos 100) (pos max_int64 ∷ pos 101 ∷ []) ≡ err invalid_split
unfolding validate_manual_split manual_sum
manual_overflow = refl

parse_minor_sound_example : Denotes (trim_space (lit " 12 ")) 1200 × (1200 ≤ max_int64)
parse_minor_sound_example = parse_minor_sound (lit " 12 ") parse_whole

seven-Denotes : Denotes (trim_space (lit " 7")) 700
unfolding trim_space
seven-Denotes = whole (lit "7") (λ e. cc) (refl, tt) refl refl

parse_minor_complete_example : parse_minor (lit " 7") ≡ ok 700
parse_minor_complete_example = parse_minor_complete (lit " 7") seven-Denotes (omega arith)

parse_minor-format_minor_example : parse_minor (format_minor (pos 1205)) ≡ ok 1205
parse_minor-format_minor_example = parse_minor-format_minor 1205 (omega arith)

split_equal_sound_example :
    (n p : ℕ) × (pos 1000 ≡ pos n)
    × (pos 3 ≡ pos p)
    × (length {A = ℕ} (333 ∷ 333 ∷ 334 ∷ []) ≡ p)
    × (sum (333 ∷ 333 ∷ 334 ∷ []) ≡ n)
    × All (λ s. (0 < s) × (n / p ≤ s) × (s ≤ n / p + 1)) (333 ∷ 333 ∷ 334 ∷ [])
split_equal_sound_example = split_equal_sound (pos 1000) (pos 3) (333 ∷ 333 ∷ 334 ∷ []) split_sample

split_equal_complete_example :
    (IsSplittable (pos 1000) (pos 3)
      → (shares : List ℕ) × (split_equal (pos 1000) (pos 3) ≡ ok shares))
    × (¬ IsSplittable (pos 1000) (pos 3) → split_equal (pos 1000) (pos 3) ≡ err invalid_split)
split_equal_complete_example = split_equal_complete (pos 1000) (pos 3)

manual_match : validate_manual_split (pos 100) (pos 40 ∷ pos 60 ∷ []) ≡ ok tt
unfolding validate_manual_split manual_sum
manual_match = refl

validate_manual_split_sound_example :
    (ns : List ℕ) × (pos 40 ∷ pos 60 ∷ [] ≡ map pos ns)
    × (0 < length ns)
    × All (λ n. 0 < n) ns
    × (pos 100 ≡ pos (sum ns))
validate_manual_split_sound_example =
    validate_manual_split_sound (pos 100) (pos 40 ∷ pos 60 ∷ []) (omega arith, (omega arith, tt))
      manual_match

validate_manual_split_complete_example :
    (sum (40 ∷ 50 ∷ []) ≡ 100 → validate_manual_split (pos 100) (map pos (40 ∷ 50 ∷ [])) ≡ ok tt)
    × (sum (40 ∷ 50 ∷ []) ≢ 100
        → validate_manual_split (pos 100) (map pos (40 ∷ 50 ∷ [])) ≡ err split_mismatch)
validate_manual_split_complete_example =
    validate_manual_split_complete 100 (40 ∷ 50 ∷ []) (omega arith) (omega arith)
      (omega arith, (omega arith, tt)) (omega arith)
