-- ===== src/Sessions.antt =====
-- internal/sessions: sessions with opaque refresh tokens. The data of session.go, the methods of the
-- repository and of the service over it, and what becomes of a token and of a session.
pub mod Repository
pub mod Service
pub mod Steps
pub mod Laws
pub mod Kept
pub mod Safety
pub mod Revoked
pub mod Newest
pub mod RoundTrip
mod Tests
use mlakp_backend.Base.{Option}
use mlakp_backend.Text.{Text}
use mlakp_backend.Store.{Time, SessionRow}
use mlakp_backend.Uuid.{format_uuid}

-- The error values of the package; `other` is any error passed on from the driver or from the source
-- of random bytes.
pub data SessionError : Type 0 where
  invalid_refresh_token invalid_session other : SessionError

-- `Session`
pub record Session : Type 0 where
  pub id : Text
  pub user_id : Text
  pub created_at : Time
  pub expires_at : Time
  pub revoked_at : Option Time
  pub last_used_at : Option Time

-- `fromSQLC`
unfoldable pub session_from_sqlc : SessionRow → Session
session_from_sqlc r = record {
  id = format_uuid r.id;
  user_id = format_uuid r.user_id;
  created_at = r.created_at;
  expires_at = r.expires_at;
  revoked_at = r.revoked_at;
  last_used_at = r.last_used_at;
}
