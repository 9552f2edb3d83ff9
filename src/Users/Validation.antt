-- ===== src/Users/Validation.antt =====
-- The checks of internal/users/service.go. `to_lower` is `strings.ToLower`.
use mlakp_backend.Base.{
  ℕ, ◌+◌, Bool, true, not, ◌||◌, Option, none, some, [], ◌∷◌, Result, ltb, ◌==◌, if◌then◌else◌,
  fail_if, ◌>>◌,
}
use mlakp_backend.Text.{Text, trim_space, is_empty, byte_length, utf8_size, contains_char}
use mlakp_backend.Sql.Users.{is_username}
use mlakp_backend.Users.{UserError, invalid_name, invalid_username, invalid_email, invalid_password}

-- `strings.LastIndex` of one character, in bytes.
unfoldable pub last_index : Text → ℕ → Option ℕ
last_index [] d = none
last_index (c ∷ s) d = elim (last_index s d) [
  | some i ↦ some (utf8_size c + i)
  | none ↦ if c == d then some 0 else none
]

-- `at <= 0 || at == len(email)-1`
abbrev pub is_bad_at : Option ℕ → ℕ → Bool
is_bad_at none size = true
is_bad_at (some at_) size = at_ == 0 || at_ + 1 == size

-- `validateName`
unfoldable pub validate_name : Text → Result UserError (Unit {0})
validate_name name = fail_if (ltb (byte_length name) 1 || ltb 120 (byte_length name)) invalid_name

-- `strings.ContainsAny(email, " \t\r\n")`
abbrev pub contains_blank : Text → Bool
contains_blank s =
    contains_char s 32 || (contains_char s 9 || (contains_char s 13 || contains_char s 10))

-- `validateEmail`
unfoldable pub validate_email : Text → Result UserError (Unit {0})
validate_email email =
    fail_if (is_empty email || ltb 254 (byte_length email)) invalid_email
    >> fail_if (is_bad_at (last_index email b'@') (byte_length email)) invalid_email
    >> fail_if (contains_blank email) invalid_email

-- `validateUsername`
unfoldable pub validate_username : Text → Result UserError (Unit {0})
validate_username username = fail_if (not (is_username username)) invalid_username

-- `len(password) < 8`
abbrev pub validate_password : Text → Result UserError (Unit {0})
validate_password password = fail_if (ltb (byte_length password) 8) invalid_password

module _ (to_lower : Text → Text) where
  -- `normalizeUsername` and `normalizeEmail`
  abbrev pub normalize_username : Text → Text
  normalize_username username = to_lower (trim_space username)

  abbrev pub normalize_email : Text → Text
  normalize_email email = to_lower (trim_space email)
