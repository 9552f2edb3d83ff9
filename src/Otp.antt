-- ===== src/Otp.antt =====
-- internal/otp: one-time passwords that are sent by mail. The data of errors.go and repository.go,
-- the methods of the repository and of the service over it, and what they make sure of.
pub mod Repository
pub mod Service
pub mod Rows
pub mod Counts
pub mod Attempts
pub mod Keeps
pub mod Steps
pub mod Sound
mod Tests
use mlakp_backend.Base.{ℕ, ◌*◌, Option, none, some}
use mlakp_backend.Text.{Text}
use mlakp_backend.Store.{Time, Uuid, VerificationRow}

-- The error values of the package; `other` is any error passed on from the driver, from the source
-- of random bytes or from bcrypt.
pub data OtpError : Type 0 where
  otp_expired otp_invalid otp_not_found otp_max_attempts otp_rate_limited otp_cooldown
        email_not_found invalid_purpose already_verified other :
      OtpError

-- `Verification`
pub record Verification : Type 0 where
  pub id : Text
  pub user_id : Option Text
  pub email : Text
  pub purpose : Text
  pub otp_hash : Text
  pub expires_at : Time
  pub verified_at : Option Time
  pub attempt_count : ℕ
  pub request_count : ℕ
  pub last_request_at : Option Time
  pub created_at : Time

-- `CreateParams`
pub record CreateParams : Type 0 where
  pub user_id : Option Text
  pub email : Text
  pub purpose : Text
  pub otp_hash : Text
  pub expires_at : Time

-- `Config`; the environment gives positive numbers only (internal/config).
pub record Config : Type 0 where
  pub expiry_minutes : ℕ
  pub request_cooldown : ℕ
  pub max_attempts : ℕ
  pub requests_per_window : ℕ
  pub window_mins : ℕ

-- `time.Second` and `time.Minute` in microseconds.
abbrev pub second : ℕ
second = 1000000

abbrev pub minute : ℕ
minute = 60 * second
