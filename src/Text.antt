-- ===== src/Text.antt =====
-- Go strings as the sequences of their code points (every text that reaches the services comes out
-- of a JSON decoder, which lets only valid UTF-8 through), with the functions of the standard
-- package `strings` that the services call.
pub mod Laws
use Prim.Native.Char.{code}
use Prim.Native.String.{String}
use mlakp_backend.Base.{
  ℕ, ◌+◌, Bool, true, false, ◌&&◌, ◌||◌, Option, none, some, List, [], ◌∷◌, ltb, leb, ◌==◌,
  if◌then◌else◌,
}

abbrev pub Text : Type 0
Text = List ℕ

-- The code points of a literal.
abbrev pub lit : String → Text
lit String.[] = []
lit (String.◌∷◌ c s) = code c ∷ lit s

-- `s == t` on strings.
unfoldable pub text_eq : Text → Text → Bool
text_eq [] [] = true
text_eq [] (d ∷ t) = false
text_eq (c ∷ s) [] = false
text_eq (c ∷ s) (d ∷ t) = c == d && text_eq s t

-- `s == ""`
abbrev pub is_empty : Text → Bool
is_empty [] = true
is_empty (c ∷ s) = false

-- The number of bytes that UTF-8 takes for a code point, and Go's `len` of a string.
unfoldable pub utf8_size : ℕ → ℕ
utf8_size c = if ltb c 0x80 then 1 else if ltb c 0x800 then 2 else if ltb c 0x10000 then 3 else 4

unfoldable pub byte_length : Text → ℕ
byte_length [] = 0
byte_length (c ∷ s) = utf8_size c + byte_length s

-- `unicode.IsSpace`
pub is_space : ℕ → Bool
is_space c =
    (leb 9 c && leb c 13)
    || c == 32
    || c == 0x85
    || c == 0xA0
    || c == 0x1680
    || (leb 0x2000 c && leb c 0x200A)
    || c == 0x2028
    || c == 0x2029
    || c == 0x202F
    || c == 0x205F
    || c == 0x3000

pub trim_left : Text → Text
trim_left [] = []
trim_left (c ∷ s) = elim (is_space c) [ true ↦ trim_left s | false ↦ c ∷ s ]

pub trim_right : Text → Text
trim_right [] = []
trim_right (c ∷ s) = let rest = trim_right s in if is_space c && is_empty rest then [] else c ∷ rest

-- `strings.TrimSpace`
unfoldable pub trim_space : Text → Text
unfolding trim_left trim_right is_space
trim_space s = trim_right (trim_left s)

-- `strings.Contains` of one character.
unfoldable pub contains_char : Text → ℕ → Bool
contains_char [] d = false
contains_char (c ∷ s) d = c == d || contains_char s d

-- `strings.Cut` at one character: what stands before it and behind it, if it is there.
unfoldable pub cut : Text → ℕ → Option (Text × Text)
cut [] d = none
cut (c ∷ s) d =
    if c == d
    then some ([], s)
    else elim (cut s d) [ none ↦ none | some (before, after) ↦ some (c ∷ before, after) ]

-- `strings.HasPrefix` of one character.
abbrev pub has_prefix_char : Text → ℕ → Bool
has_prefix_char [] d = false
has_prefix_char (c ∷ s) d = c == d
