-- ===== src/Money/Parse.antt =====
-- What `ParseMinor` accepts and what it returns.
use mlakp_backend.Base.{
  ℕ, ◌+◌, ◌*◌, ◌/◌, ◌%◌, ◌^◌, ◌≤◌, ◌≡◌, ◌≢◌, refl, sym, ◌⊎◌, ◌-◌, true, false, Option, none, some,
  [], ◌∷◌, ◌++◌, arith, length, ok, Result-cases, inl, inr, Option-cases, ltb,
}
use mlakp_backend.Text.{Text, trim_space, byte_length, is_empty, cut}
use mlakp_backend.Text.Laws.{length-le-byte_length, cut_sound}
use mlakp_backend.Decimal.{max_int64, is_digit, value, parse_int}
use mlakp_backend.Decimal.Laws.{IsDigits, byte_length-digits}
use mlakp_backend.Money.{
  is_digits, pad_zeros, pad_minor, amount_parts, or_invalid, minor_of_parts, parse_minor,
}

-- A text without white space that stands for a number of minor units: digits, and behind a point
-- one or two more digits or no point at all.
pub data Denotes (s : Text) (n : ℕ) : Type 0 where
  whole : (m : Text) → m ≢ [] → IsDigits m → s ≡ m → n ≡ value 0 m * 100 → Denotes s n
  tenths :
      (m : Text) (d : ℕ)
      → m ≢ []
      → IsDigits m
      → is_digit d ≡ true
      → s ≡ m ++ b'.' ∷ d ∷ []
      → n ≡ value 0 m * 100 + (d - b'0') * 10
      → Denotes s n
  hundredths :
      (m : Text) (d e : ℕ)
      → m ≢ []
      → IsDigits m
      → is_digit d ≡ true
      → is_digit e ≡ true
      → s ≡ m ++ b'.' ∷ d ∷ e ∷ []
      → n ≡ value 0 m * 100 + (d - b'0') * 10 + (e - b'0')
      → Denotes s n

pub is_digits-IsDigits : (s : Text) → is_digits s ≡ true → IsDigits s
unfolding is_digits
is_digits-IsDigits [] h = tt
is_digits-IsDigits (c ∷ s) h = ground (arith, is_digits-IsDigits s)

pub IsDigits-is_digits : (s : Text) → IsDigits s → is_digits s ≡ true
unfolding is_digits
IsDigits-is_digits [] h = refl
IsDigits-is_digits (c ∷ s) (h, hs) = ground (arith, IsDigits-is_digits s hs)

parse_int_ok :
    (s : Text) {n : ℕ} → parse_int s ≡ some n → (s ≢ []) × (n ≡ value 0 s) × (n ≤ max_int64)
unfolding parse_int
parse_int_ok [] h = cc
parse_int_ok (c ∷ s) {n} h = (λ e. cc, ground arith, ground arith)

or_invalid_ok : (o : Option ℕ) {n : ℕ} → or_invalid o ≡ ok n → o ≡ some n
or_invalid_ok none h = cc
or_invalid_ok (some m) h = ground arith

-- The two texts around the point and the number that they make.
minor_of_parts_ok :
    (a b : Text) {n : ℕ}
    → minor_of_parts a b ≡ ok n
    → (a ≢ [])
      × IsDigits a
      × IsDigits b
      × (n ≡ value 0 a * 100 + value 0 (pad_minor b))
      × (n ≤ max_int64)
unfolding minor_of_parts
minor_of_parts_ok a b {n} h = elim (Option-cases (parse_int a)) [
  | inl e ↦ absurd (ground arith)
  | inr (x, ex) ↦ elim (Option-cases (parse_int (pad_minor b))) [
    | inl e ↦ absurd (ground arith)
    | inr (y, ey) ↦
        let (na, va, fa) = parse_int_ok a ex in
        let (nb, vb, fb) = parse_int_ok (pad_minor b) ey in
        let made : (x ≤ (max_int64 - y) / 100) × (n ≡ (x * 100 + y) % 2 ^ 64) = ground arith in
        let all_a : is_digits a ≡ true = ground arith in
        let all_b : is_digits b ≡ true = ground arith in
        (na, is_digits-IsDigits a all_a, is_digits-IsDigits b all_b, omega arith, omega arith)
  ]
]

-- The accepted texts behind the point: one digit, or two.
minor_shape :
    (b : Text)
    → is_empty b ≡ false
    → ltb 2 (byte_length b) ≡ false
    → IsDigits b
    → ((d : ℕ) × (b ≡ d ∷ [])) ⊎ ((d : ℕ) × (e : ℕ) × (b ≡ d ∷ e ∷ []))
minor_shape [] h l all = cc
minor_shape (d ∷ []) h l all = inl (d, refl)
minor_shape (d ∷ e ∷ []) h l all = inr (d, e, refl)
minor_shape (d ∷ e ∷ f ∷ b) h l all = absurd (
    let long : length (d ∷ e ∷ f ∷ b) ≤ byte_length (d ∷ e ∷ f ∷ b) = length-le-byte_length _ in
    ground arith)

pub pad_one : (d : ℕ) → is_digit d ≡ true → value 0 (pad_minor (d ∷ [])) ≡ (d - b'0') * 10
unfolding pad_zeros
pad_one d h = rw (byte_length-digits (d ∷ []) (h, tt)) (omega arith)

pub pad_two :
    (d e : ℕ)
    → is_digit d ≡ true
    → is_digit e ≡ true
    → value 0 (pad_minor (d ∷ e ∷ [])) ≡ (d - b'0') * 10 + (e - b'0')
unfolding pad_zeros
pad_two d e hd he = rw (byte_length-digits (d ∷ e ∷ []) (hd, (he, tt))) (omega arith)

amount_parts_ok :
    (v : Text) {a b : Text}
    → amount_parts v ≡ ok (a, b)
    → ((a ≡ v) × (b ≡ b'0' ∷ b'0' ∷ []))
      ⊎ ((v ≡ a ++ b'.' ∷ b) × (is_empty b ≡ false) × (ltb 2 (byte_length b) ≡ false))
unfolding amount_parts
amount_parts_ok v {a} {b} h = elim (Option-cases (cut v b'.')) [
  | inl e ↦ inl (ground arith)
  | inr ((x, y), e) ↦ inr (ground (arith, cut_sound v b'.' e))
]

-- The number that the parts make is what the text denotes, in each of the three shapes.
whole_parts :
    (v a b : Text) {n : ℕ}
    → a ≢ []
    → IsDigits a
    → n ≡ value 0 a * 100 + value 0 (pad_minor b)
    → a ≡ v
    → b ≡ b'0' ∷ b'0' ∷ []
    → Denotes v n
whole_parts v a b {n} na all_a exact same zeros =
    let exact' : n ≡ value 0 a * 100 + value 0 (pad_minor (b'0' ∷ b'0' ∷ [])) = rw zeros at exact in
    whole a na all_a (sym same) (omega (arith, pad_two b'0' b'0' refl refl))

decimal_parts :
    (v a b : Text) {n : ℕ}
    → a ≢ []
    → IsDigits a
    → IsDigits b
    → n ≡ value 0 a * 100 + value 0 (pad_minor b)
    → v ≡ a ++ b'.' ∷ b
    → ((d : ℕ) × (b ≡ d ∷ [])) ⊎ ((d : ℕ) × (e : ℕ) × (b ≡ d ∷ e ∷ []))
    → Denotes v n
decimal_parts v a b {n} na all_a all_b exact joined (inl (d, eb)) =
    let all_d : IsDigits (d ∷ []) = rw eb at all_b in
    let exact' : n ≡ value 0 a * 100 + value 0 (pad_minor (d ∷ [])) = rw eb at exact in
    let joined' : v ≡ a ++ b'.' ∷ d ∷ [] = rw eb at joined in
    tenths a d na all_a all_d.0 joined' (omega (arith, pad_one d all_d.0))
decimal_parts v a b {n} na all_a all_b exact joined (inr (d, e, eb)) =
    let all_d : IsDigits (d ∷ e ∷ []) = rw eb at all_b in
    let exact' : n ≡ value 0 a * 100 + value 0 (pad_minor (d ∷ e ∷ [])) = rw eb at exact in
    let joined' : v ≡ a ++ b'.' ∷ d ∷ e ∷ [] = rw eb at joined in
    hundredths a d e na all_a all_d.0 all_d.1.0 joined'
      (omega (arith, pad_two d e all_d.0 all_d.1.0))

-- An accepted text, white space at its ends aside, denotes the amount, which is an int64.
pub parse_minor_sound :
    (s : Text) {n : ℕ} → parse_minor s ≡ ok n → Denotes (trim_space s) n × (n ≤ max_int64)
unfolding parse_minor
parse_minor_sound s {n} h = elim (Result-cases (amount_parts (trim_space s))) [
  | inl ((a, b), e) ↦
      let made : minor_of_parts a b ≡ ok n = ground arith in
      let (na, all_a, all_b, exact, fits) = minor_of_parts_ok a b made in
      elim (amount_parts_ok (trim_space s) e) [
        | inl (same, zeros) ↦ (whole_parts _ a b na all_a exact same zeros, fits)
        | inr (joined, some_digit, short) ↦ (
          decimal_parts _ a b na all_a all_b exact joined (minor_shape b some_digit short all_b),
          fits,
        )
      ]
  | inr (x, e) ↦ absurd (ground arith)
]
