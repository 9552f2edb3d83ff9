-- ===== src/Sql/Verifications.antt =====
-- The statements of internal/otp/repository.go on the table `email_verifications`, with the
-- constraints of migrations/20260512000800_email_verifications.up.sql.
use mlakp_backend.Base.{
  ℕ, ◌+◌, Bool, true, not, ◌&&◌, ◌||◌, Option, none, some, List, [], ◌∷◌, ok, err, ltb, leb, ◌==◌,
  if◌then◌else◌,
}
use mlakp_backend.Text.{Text, text_eq, lit}
use mlakp_backend.Store.{Query, no_rows, failed, duplicate, Uuid, Time, Db, VerificationRow}
use mlakp_backend.Sql.Rows.{find_row, update_rows, any_row}
use mlakp_backend.Sql.Debts.{one_row}
use mlakp_backend.Sql.Sessions.{is_null, user_has_id}

abbrev pub verification_has_id : Uuid → VerificationRow → Bool
verification_has_id id r = r.id == id

-- `email = $1 AND purpose = $2`
abbrev pub is_for : Text → Text → VerificationRow → Bool
is_for email purpose r = text_eq r.email email && text_eq r.purpose purpose

-- `... AND verified_at IS NULL`
abbrev pub is_unverified : Text → Text → VerificationRow → Bool
is_unverified email purpose r = is_for email purpose r && is_null r.verified_at

-- The arguments of the insertion.
pub record NewVerification : Type 0 where
  pub user_id : Option Uuid
  pub email : Text
  pub purpose : Text
  pub otp_hash : Text
  pub expires_at : Time

abbrev pub new_verification : NewVerification → Uuid → Time → VerificationRow
new_verification arg id now = record {
  id = id;
  user_id = arg.user_id;
  email = arg.email;
  purpose = arg.purpose;
  otp_hash = arg.otp_hash;
  expires_at = arg.expires_at;
  verified_at = none;
  attempt_count = 0;
  request_count = 1;
  last_request_at = now;
  created_at = now;
}

abbrev pub is_purpose : Text → Bool
is_purpose purpose = text_eq purpose (lit "signup") || text_eq purpose (lit "password_reset")

-- `REFERENCES users(id)`
abbrev pub user_is_known : Option Uuid → Db → Bool
user_is_known none db = true
user_is_known (some u) db = any_row (user_has_id u) db.users

unfoldable pub create_verification : NewVerification → Query VerificationRow
create_verification arg id now db =
    if not (is_purpose arg.purpose && ltb now arg.expires_at)
    then err failed
    else if any_row (verification_has_id id) db.verifications
    then err (duplicate (lit "email_verifications_pkey"))
    else if user_is_known arg.user_id db
    then ok (
      new_verification arg id now,
      record db { verifications = new_verification arg id now ∷ db.verifications },
    )
    else err failed

abbrev pub newer : VerificationRow → Option VerificationRow → Option VerificationRow
newer r none = some r
newer r (some x) = if ltb r.created_at x.created_at then some x else some r

-- `ORDER BY created_at DESC LIMIT 1`; of rows with the same time, the one inserted last.
unfoldable pub latest : (VerificationRow → Bool) → List VerificationRow → Option VerificationRow
latest p [] = none
latest p (r ∷ rows) = let rest = latest p rows in if p r then newer r rest else rest

unfoldable pub get_active_by_email_and_purpose : Text → Text → Query VerificationRow
get_active_by_email_and_purpose email purpose id now db =
    one_row (latest (is_unverified email purpose) db.verifications) db

abbrev pub attempted : VerificationRow → VerificationRow
attempted r = record r { attempt_count = r.attempt_count + 1 }

unfoldable pub increment_attempt : Uuid → Query VerificationRow
increment_attempt verification_id id now db =
    elim (find_row (verification_has_id verification_id) db.verifications) [
      | none ↦ err no_rows
      | some r ↦ ok (
        attempted r,
        record db {
          verifications =
              update_rows (verification_has_id verification_id) attempted db.verifications;
        },
      )
    ]

abbrev pub verified_row : Time → VerificationRow → VerificationRow
verified_row now r = record r { verified_at = some now }

unfoldable pub mark_verified : Uuid → Query (Unit {0})
mark_verified verification_id id now db = ok (
  tt,
  record db {
    verifications =
        update_rows (verification_has_id verification_id) (verified_row now) db.verifications;
  },
)

-- `... AND verified_at IS NULL AND expires_at > now()`
abbrev pub is_pending_at : Text → Text → Time → VerificationRow → Bool
is_pending_at email purpose now r = is_unverified email purpose r && ltb now r.expires_at

abbrev pub expired_row : Time → VerificationRow → VerificationRow
expired_row now r = record r { expires_at = now }

-- A row that is created at the same moment cannot expire then.
unfoldable pub expire_old_verifications : Text → Text → Query (Unit {0})
expire_old_verifications email purpose id now db =
    if any_row (λ r. is_pending_at email purpose now r && leb now r.created_at) db.verifications
    then err failed
    else ok (
      tt,
      record db {
        verifications =
            update_rows (is_pending_at email purpose now) (expired_row now) db.verifications;
      },
    )

-- `COUNT(*)`
unfoldable pub count_rows : (VerificationRow → Bool) → List VerificationRow → ℕ
count_rows p [] = 0
count_rows p (r ∷ rows) = (if p r then 1 else 0) + count_rows p rows

abbrev pub is_recent : Text → Text → Time → VerificationRow → Bool
is_recent email purpose window_start r = is_for email purpose r && leb window_start r.created_at

unfoldable pub count_recent_requests : Text → Text → Time → Query ℕ
count_recent_requests email purpose window_start id now db =
    ok (count_rows (is_recent email purpose window_start) db.verifications, db)
