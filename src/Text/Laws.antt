-- ===== src/Text/Laws.antt =====
-- Laws of the string functions.
use mlakp_backend.Base.{
  ◌≢◌, ◌≡◌, refl, ap, ◌∙◌, Option-cases, inl, inr, true, false, [], ◌∷◌, arith, Bool-cases, All, ℕ,
  ◌≤◌, ◌<◌, length, ◌++◌, some, none,
}
use mlakp_backend.Text.{
  Text, text_eq, is_space, trim_left, trim_right, trim_space, contains_char, cut, utf8_size,
  byte_length,
}

pub text_eq_sound : (s t : Text) → text_eq s t ≡ true → s ≡ t
unfolding text_eq
text_eq_sound [] [] h = refl
text_eq_sound [] (d ∷ t) h = cc
text_eq_sound (c ∷ s) [] h = cc
text_eq_sound (c ∷ s) (d ∷ t) h = ground (arith, text_eq_sound s t)

pub text_eq_refl : (s : Text) → text_eq s s ≡ true
unfolding text_eq
text_eq_refl [] = refl
text_eq_refl (c ∷ s) = ground (arith, text_eq_refl s)

-- No white space at the front; no white space at the back; none anywhere.
abbrev pub IsTrimmedLeft : Text → Type 0
IsTrimmedLeft [] = Unit
IsTrimmedLeft (c ∷ s) = is_space c ≡ false

abbrev pub IsTrimmedRight : Text → Type 0
IsTrimmedRight s = trim_right s ≡ s

abbrev pub NoSpace : Text → Type 0
NoSpace = All (λ c. is_space c ≡ false)

trim_left-IsTrimmedLeft : (s : Text) → IsTrimmedLeft (trim_left s)
unfolding trim_left
trim_left-IsTrimmedLeft [] = tt
trim_left-IsTrimmedLeft (c ∷ s) = elim (Bool-cases (is_space c)) [
  | inl e ↦ rw (e, trim_left) (trim_left-IsTrimmedLeft s)
  | inr e ↦ rw (e, trim_left) e
]

trim_right_idem : (s : Text) → trim_right (trim_right s) ≡ trim_right s
unfolding trim_right
trim_right_idem [] = refl
trim_right_idem (c ∷ s) = ground (arith, trim_right_idem s)

trim_right-IsTrimmedLeft : (s : Text) → IsTrimmedLeft s → IsTrimmedLeft (trim_right s)
unfolding trim_right
trim_right-IsTrimmedLeft [] h = tt
trim_right-IsTrimmedLeft (c ∷ s) h = rw (h, trim_right) h

trim_left_of : (s : Text) → IsTrimmedLeft s → trim_left s ≡ s
unfolding trim_left
trim_left_of [] h = refl
trim_left_of (c ∷ s) h = rw (h, trim_left)

pub trim_space_idem : (s : Text) → trim_space (trim_space s) ≡ trim_space s
unfolding trim_space
trim_space_idem s =
    ap trim_right (
      trim_left_of (trim_right (trim_left s))
        (trim_right-IsTrimmedLeft (trim_left s) (trim_left-IsTrimmedLeft s)))
    ∙ trim_right_idem (trim_left s)

trim_right_of : (s : Text) → NoSpace s → trim_right s ≡ s
unfolding trim_right
trim_right_of [] h = refl
trim_right_of (c ∷ s) (h, hs) = ground (arith, trim_right_of s hs)

pub trim_space_of : (s : Text) → NoSpace s → trim_space s ≡ s
unfolding trim_space
trim_space_of [] h = refl
trim_space_of (c ∷ s) h = rw (trim_left_of (c ∷ s) h.0) (trim_right_of (c ∷ s) h)

-- A text that holds the character nowhere is not cut; one that does is cut at its first place.
pub cut_absent : (s : Text) (d : ℕ) → contains_char s d ≡ false → cut s d ≡ none
unfolding cut contains_char
cut_absent [] d h = refl
cut_absent (c ∷ s) d h = ground (arith, cut_absent s d)

pub cut_at :
    (s : Text) (d : ℕ) (t : Text) → contains_char s d ≡ false → cut (s ++ d ∷ t) d ≡ some (s, t)
unfolding cut contains_char
cut_at [] d t h = ground arith
cut_at (c ∷ s) d t h = ground (arith, cut_at s d t)

pub cut_sound :
    (s : Text) (d : ℕ) {a b : Text}
    → cut s d ≡ some (a, b)
    → (s ≡ a ++ d ∷ b) × (contains_char a d ≡ false)
unfolding cut contains_char
cut_sound [] d h = cc
cut_sound (c ∷ s) d {a} {b} h = elim (Option-cases (cut s d)) [
  | inl e ↦ ground arith
  | inr ((x, y), e) ↦ ground (arith, cut_sound s d {a = x} {b = y} e)
]

utf8_size-ascii : (c : ℕ) → c < 0x80 → utf8_size c ≡ 1
unfolding utf8_size
utf8_size-ascii c h = ground arith

utf8_size-pos : (c : ℕ) → 0 < utf8_size c
unfolding utf8_size
utf8_size-pos c = ground arith

-- A text of ASCII characters has a byte for each; any text has at least a byte for each.
pub byte_length-ascii : (s : Text) → All (λ c. c < 0x80) s → byte_length s ≡ length s
unfolding byte_length
byte_length-ascii [] h = refl
byte_length-ascii (c ∷ s) (h, hs) = omega (arith, byte_length-ascii s hs, utf8_size-ascii c h)

pub length-le-byte_length : (s : Text) → length s ≤ byte_length s
unfolding byte_length
length-le-byte_length [] = omega arith
length-le-byte_length (c ∷ s) = omega (arith, length-le-byte_length s, utf8_size-pos c)

pub is_space-graphic : (c : ℕ) → 32 < c → c < 127 → is_space c ≡ false
unfolding is_space
is_space-graphic c h k = ground arith

pub text_ne : (s t : Text) → s ≢ t → text_eq s t ≡ false
text_ne s t h = elim (Bool-cases (text_eq s t)) [
  | inl e ↦ absurd (h (text_eq_sound s t e))
  | inr e ↦ e
]
