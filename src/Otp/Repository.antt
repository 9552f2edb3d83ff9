-- ===== src/Otp/Repository.antt =====
-- internal/otp/repository.go. The driver turns a UUID of a row into a string, `uuid_text`, and a
-- string argument into a UUID, `text_uuid`, or fails.
use mlakp_backend.Base.{ℕ, Option, none, some, Result, ok, err}
use mlakp_backend.Text.{Text}
use mlakp_backend.Store.{
  Server, Action, Uuid, Time, VerificationRow, SqlError, no_rows, failed, duplicate, exec, pure,
  lift, on_error, ◌>>=◌,
}
use mlakp_backend.Sql.Verifications as Sql
use mlakp_backend.Sql.Verifications.{
  create_verification, get_active_by_email_and_purpose, increment_attempt, expire_old_verifications,
  count_recent_requests,
}
use mlakp_backend.Otp.{OtpError, otp_not_found, other, Verification, CreateParams}

abbrev pub any_error : SqlError → OtpError
any_error e = other

-- `if errors.Is(err, pgx.ErrNoRows) { return ErrOTPNotFound }; return err`
abbrev pub not_found_or_other : SqlError → OtpError
not_found_or_other no_rows = otp_not_found
not_found_or_other failed = other
not_found_or_other (duplicate name) = other

module _ (s : Server) (uuid_text : Uuid → Text) (text_uuid : Text → Option Uuid) where
  abbrev pub optional_text : Option Uuid → Option Text
  optional_text none = none
  optional_text (some u) = some (uuid_text u)

  -- What `Scan` stores in a `Verification`.
  unfoldable pub scan_verification : VerificationRow → Verification
  scan_verification r = record {
    id = uuid_text r.id;
    user_id = optional_text r.user_id;
    email = r.email;
    purpose = r.purpose;
    otp_hash = r.otp_hash;
    expires_at = r.expires_at;
    verified_at = r.verified_at;
    attempt_count = r.attempt_count;
    request_count = r.request_count;
    last_request_at = some r.last_request_at;
    created_at = r.created_at;
  }

  -- A UUID argument, and one that may be missing.
  abbrev pub uuid_argument : Text → Result OtpError Uuid
  uuid_argument value = elim (text_uuid value) [ none ↦ err other | some u ↦ ok u ]

  abbrev pub optional_argument : Option Text → Result OtpError (Option Uuid)
  optional_argument none = ok none
  optional_argument (some value) = elim (text_uuid value) [
    | none ↦ err other
    | some u ↦ ok (some u)
  ]

  -- `Create`
  unfoldable pub create : CreateParams → Action OtpError Verification
  create params = do
    user_id ← lift (optional_argument params.user_id)
    row ← on_error any_error (
        exec s (
          create_verification (record {
            user_id = user_id;
            email = params.email;
            purpose = params.purpose;
            otp_hash = params.otp_hash;
            expires_at = params.expires_at;
          })))
    pure (scan_verification row)

  -- `GetActiveByEmailAndPurpose`
  unfoldable pub get_active : Text → Text → Action OtpError Verification
  get_active email purpose = do
    row ← on_error not_found_or_other (exec s (get_active_by_email_and_purpose email purpose))
    pure (scan_verification row)

  -- `IncrementAttempt`
  unfoldable pub increment : Text → Action OtpError Verification
  increment id = do
    verification_id ← lift (uuid_argument id)
    row ← on_error any_error (exec s (increment_attempt verification_id))
    pure (scan_verification row)

  -- `MarkVerified`
  unfoldable pub mark_verified : Text → Action OtpError (Unit {0})
  mark_verified id = do
    verification_id ← lift (uuid_argument id)
    on_error any_error (exec s (Sql.mark_verified verification_id))

  -- `ExpireOldVerifications`
  unfoldable pub expire_old : Text → Text → Action OtpError (Unit {0})
  expire_old email purpose = on_error any_error (exec s (expire_old_verifications email purpose))

  -- `CountRecentRequests`
  unfoldable pub count_recent : Text → Text → Time → Action OtpError ℕ
  count_recent email purpose window_start =
      on_error any_error (exec s (count_recent_requests email purpose window_start))
