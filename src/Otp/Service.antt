-- ===== src/Otp/Service.antt =====
-- internal/otp/service.go. `bcrypt_hash` is `bcrypt.GenerateFromPassword` at a given salt, and
-- `bcrypt_compare` says whether `bcrypt.CompareHashAndPassword` finds no difference; both belong to
-- golang.org/x/crypto.
use mlakp_backend.Base.{
  ℕ, zero, suc, ◌+◌, ◌-◌, ◌*◌, ◌%◌, Bool, true, not, ◌&&◌, Option, none, some, [], ◌∷◌, Result, ok,
  err, ltb, leb, if◌then◌else◌,
}
use mlakp_backend.Text.{Text, text_eq, lit}
use mlakp_backend.Store.{
  Server, Host, Action, Uuid, read_clock, draw, pure, throw, throw_if, attempt, lift, ◌>>=◌, ◌>>◌,
}
use mlakp_backend.Otp.{
  OtpError, otp_expired, otp_invalid, otp_not_found, otp_max_attempts, otp_rate_limited,
  otp_cooldown, invalid_purpose, other, Verification, Config, second, minute,
}
use mlakp_backend.Otp.Repository as Repository

abbrev pub otp_length : ℕ
otp_length = 6

-- `purpose != "signup" && purpose != "password_reset"`
abbrev pub is_other_purpose : Text → Bool
is_other_purpose purpose =
    not (text_eq purpose (lit "signup")) && not (text_eq purpose (lit "password_reset"))

-- `verification.UserID == nil || *verification.UserID != userID`
abbrev pub is_of_other_user : Option Text → Text → Bool
is_of_other_user none user_id = true
is_of_other_user (some owner) user_id = not (text_eq owner user_id)

module _ (s : Server) (host : Host) (uuid_text : Uuid → Text) (text_uuid : Text → Option Uuid)
    (bcrypt_hash : ℕ → Text → Option Text) (bcrypt_compare : Text → Text → Bool)
    (config : Config) where
  -- The loop of `GenerateOTP`, by the digits that are missing; `rand.Int` below ten is a draw modulo
  -- ten, and the digit with a number has its code point.
  unfoldable pub generate_digits : ℕ → Action OtpError Text
  generate_digits zero = pure []
  generate_digits (suc k) = do
    num ← draw host other
    rest ← generate_digits k
    pure ((b'0' + num % 10) ∷ rest)

  -- `GenerateOTP`
  unfoldable pub generate_otp : Action OtpError Text
  generate_otp = generate_digits otp_length

  -- `HashOTP`
  unfoldable pub hash_otp : Text → Action OtpError Text
  hash_otp otp = do
    salt ← draw host other
    lift (elim (bcrypt_hash salt otp) [ none ↦ err other | some h ↦ ok h ])

  -- `CreateVerification`
  unfoldable pub create_verification :
      Text → Text → Option Text → Action OtpError (Text × Verification)
  create_verification email purpose user_id = do
    throw_if (is_other_purpose purpose) invalid_purpose
    now ← read_clock host
    request_count ←
        Repository.count_recent s uuid_text text_uuid email purpose
          (now - config.window_mins * minute)
    throw_if (leb config.requests_per_window request_count) otp_rate_limited
    Repository.expire_old s uuid_text text_uuid email purpose
    otp ← generate_otp
    otp_hash ← hash_otp otp
    then_ ← read_clock host
    verification ← Repository.create s uuid_text text_uuid (record {
      user_id = user_id;
      email = email;
      purpose = purpose;
      otp_hash = otp_hash;
      expires_at = then_ + config.expiry_minutes * minute;
    })
    pure (otp, verification)

  -- The branch of `verify` for a wrong password.
  unfoldable pub count_attempt : Verification → Action OtpError Verification
  count_attempt verification = do
    updated ← Repository.increment s uuid_text text_uuid verification.id
    throw_if (leb config.max_attempts updated.attempt_count) otp_max_attempts
    throw otp_invalid

  -- The branch of `verify` for the right password.
  unfoldable pub accept_otp : Verification → Action OtpError Verification
  accept_otp verification = do
    Repository.mark_verified s uuid_text text_uuid verification.id
    now ← read_clock host
    pure (record verification { verified_at = some now })

  -- `CompareOTP`, and what follows from it.
  unfoldable pub check_otp : Verification → Text → Action OtpError Verification
  check_otp verification otp =
      if not (bcrypt_compare verification.otp_hash otp)
      then count_attempt verification
      else accept_otp verification

  -- `verify`
  unfoldable pub verify : Verification → Text → Action OtpError Verification
  verify verification otp = do
    now ← read_clock host
    throw_if (ltb verification.expires_at now) otp_expired
    throw_if (leb config.max_attempts verification.attempt_count) otp_max_attempts
    check_otp verification otp

  -- `VerifyOTP`
  unfoldable pub verify_otp : Text → Text → Text → Action OtpError Verification
  verify_otp email purpose otp = do
    throw_if (is_other_purpose purpose) invalid_purpose
    verification ← Repository.get_active s uuid_text text_uuid email purpose
    verify verification otp

  -- `VerifyOTPForUser`
  unfoldable pub verify_otp_for_user : Text → Text → Text → Text → Action OtpError Verification
  verify_otp_for_user email purpose otp user_id = do
    throw_if (is_other_purpose purpose) invalid_purpose
    verification ← Repository.get_active s uuid_text text_uuid email purpose
    throw_if (is_of_other_user verification.user_id user_id) otp_not_found
    verify verification otp

  abbrev pub cooldown_of : Verification → Action OtpError (Unit {0})
  cooldown_of verification = elim verification.last_request_at [
    | none ↦ pure tt
    | some last ↦ read_clock host >>= λ now.
        throw_if (ltb now (last + config.request_cooldown * second)) otp_cooldown
  ]

  abbrev pub cooldown_result : Result OtpError Verification → Action OtpError (Unit {0})
  cooldown_result (ok verification) = cooldown_of verification
  cooldown_result (err otp_not_found) = pure tt
  cooldown_result (err e) = throw e

  -- `CheckCooldown`
  unfoldable pub check_cooldown : Text → Text → Action OtpError (Unit {0})
  check_cooldown email purpose = do
    result ← attempt (Repository.get_active s uuid_text text_uuid email purpose)
    cooldown_result result
