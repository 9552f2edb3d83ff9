-- ===== src/Decimal/Laws.antt =====
-- Printing a number and reading it back, and what a printed number is made of.
use mlakp_backend.Base.{
  ℕ, zero, suc, ◌+◌, ◌/◌, ◌%◌, ◌≤◌, ◌<◌, ◌≡◌, ◌≢◌, ap, ◌∙◌, refl, true, some, [], ◌∷◌, arith, All,
  All-map, length, Bool-cases, inl, inr, ◌==◌,
}
use mlakp_backend.Text.{Text, byte_length}
use mlakp_backend.Text.Laws.{NoSpace, is_space-graphic, byte_length-ascii}
use mlakp_backend.Decimal.{max_int64, is_digit, value, parse_int, emit, decimal, decimal_two}

abbrev pub IsDigits : Text → Type 0
IsDigits = All (λ c. is_digit c ≡ true)

is_digit-graphic : (c : ℕ) → is_digit c ≡ true → (32 < c) × (c < 127)
is_digit-graphic c h = ground arith

pub IsDigits-NoSpace : (s : Text) → IsDigits s → NoSpace s
IsDigits-NoSpace s =
    All-map _ _ s λ c h. let (lo, hi) = is_digit-graphic c h in is_space-graphic c lo hi

pub byte_length-digits : (s : Text) → IsDigits s → byte_length s ≡ length s
byte_length-digits s all =
    byte_length-ascii s
      (All-map _ _ s (λ c h. let (lo, hi) = is_digit-graphic c h in omega arith) all)

-- With enough fuel, reading what is emitted is reading the rest behind the number.
value-emit : (fuel n : ℕ) (out : Text) → n ≤ fuel → value 0 (emit fuel n out) ≡ value n out
unfolding emit
value-emit zero n out h = ground arith
value-emit (suc fuel) n out h = ground (arith, value-emit fuel (n / 10) ((b'0' + n % 10) ∷ out))

emit-IsDigits : (fuel n : ℕ) (out : Text) → IsDigits out → IsDigits (emit fuel n out)
unfolding emit
emit-IsDigits zero n out h = h
emit-IsDigits (suc fuel) n out h = elim (Bool-cases (n == 0)) [
  | inl e ↦ ground arith
  | inr e ↦ ground (arith, emit-IsDigits fuel (n / 10) ((b'0' + n % 10) ∷ out) (ground arith, h))
]

emit-ne-nil : (fuel n : ℕ) (out : Text) → out ≢ [] → emit fuel n out ≢ []
unfolding emit
emit-ne-nil zero n out h = h
emit-ne-nil (suc fuel) n out h =
    ground (arith, h, emit-ne-nil fuel (n / 10) ((b'0' + n % 10) ∷ out) (λ e. cc))

pub value-decimal : (n : ℕ) → value 0 (decimal n) ≡ n
unfolding decimal
value-decimal n = ground (arith, value-emit n n [])

pub decimal-IsDigits : (n : ℕ) → IsDigits (decimal n)
unfolding decimal
decimal-IsDigits n = elim (Bool-cases (n == 0)) [
  | inl e ↦ rw e (refl, tt)
  | inr e ↦ rw e (emit-IsDigits n n [] tt)
]

emit_ne_nil : (fuel n : ℕ) (out : Text) → 0 < n → n ≤ fuel → emit fuel n out ≢ []
unfolding emit
emit_ne_nil zero n out p h = absurd (omega arith)
emit_ne_nil (suc fuel) n out p h = elim (Bool-cases (n == 0)) [
  | inl e ↦ absurd (ground arith)
  | inr e ↦ rw e (emit-ne-nil fuel (n / 10) ((b'0' + n % 10) ∷ out) (λ q. cc))
]

pub decimal-ne-nil : (n : ℕ) → decimal n ≢ []
unfolding decimal
decimal-ne-nil n = elim (Bool-cases (n == 0)) [
  | inl e ↦ rw e (λ q. cc)
  | inr e ↦ rw e (emit_ne_nil n n [] (ground arith) (omega arith))
]

-- A number of up to two digits in two places.
emit-zero : (fuel : ℕ) (out : Text) → emit fuel 0 out ≡ out
unfolding emit
emit-zero zero out = refl
emit-zero (suc fuel) out = refl

-- One round for a single digit.
emit_digit :
    (fuel n : ℕ) (out : Text) → 0 < n → n < 10 → n ≤ fuel → emit fuel n out ≡ (b'0' + n) ∷ out
unfolding emit
emit_digit zero n out p lt h = absurd (omega arith)
emit_digit (suc fuel) n out p lt h =
    let e : n / 10 ≡ 0 = omega arith in
    let d : n % 10 ≡ n = omega arith in rw (e, d, emit-zero fuel ((b'0' + n) ∷ out)) (ground arith)

emit_two_digits :
    (fuel n : ℕ) (out : Text)
    → 10 ≤ n
    → n < 100
    → n ≤ fuel
    → emit fuel n out ≡ (b'0' + n / 10) ∷ (b'0' + n % 10) ∷ out
unfolding emit
emit_two_digits zero n out p lt h = absurd (omega arith)
emit_two_digits (suc fuel) n out p lt h =
    rw (emit_digit fuel (n / 10) ((b'0' + n % 10) ∷ out) (omega arith) (omega arith) (omega arith))
      (ground arith)

pub decimal_two_lem : (n : ℕ) → n < 100 → decimal_two n ≡ (b'0' + n / 10) ∷ (b'0' + n % 10) ∷ []
unfolding decimal_two decimal
decimal_two_lem n h = ground (arith, emit_digit n n [], emit_two_digits n n [])

pub parse_int-value : (s : Text) → s ≢ [] → value 0 s ≤ max_int64 → parse_int s ≡ some (value 0 s)
unfolding parse_int
parse_int-value [] h _ = absurd (h refl)
parse_int-value (c ∷ s) h fits = ground arith

-- Every number of the type is read back from its print.
pub parse_int-decimal : (n : ℕ) → n ≤ max_int64 → parse_int (decimal n) ≡ some n
parse_int-decimal n h =
    let fits : value 0 (decimal n) ≤ max_int64 = rw (value-decimal n) h in
    parse_int-value (decimal n) (decimal-ne-nil n) fits ∙ ap some (value-decimal n)
