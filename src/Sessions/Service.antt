-- ===== src/Sessions/Service.antt =====
-- internal/sessions/service.go. `encode` is `base64.RawURLEncoding.EncodeToString` of the random
-- bytes and `fingerprint` the hexadecimal SHA-256 sum, both of Go's library.
use mlakp_backend.Base.{ℕ, ◌+◌, Option, ok, err, Result}
use mlakp_backend.Text.{Text, is_empty, trim_space}
use mlakp_backend.Store.{
  Server, Host, Action, Uuid, read_clock, draw, pure, throw, throw_if, attempt, ◌>>=◌, ◌>>◌,
}
use mlakp_backend.Sessions.{SessionError, invalid_refresh_token, invalid_session, other, Session}
use mlakp_backend.Sessions.Repository as Repository

-- `if _, err := s.store.GetActiveByID(...); err != nil { return ErrInvalidSession }`
abbrev pub any_is_invalid : Result SessionError Session → Action SessionError (Unit {0})
any_is_invalid (ok session) = pure tt
any_is_invalid (err e) = throw invalid_session

module _ (s : Server) (host : Host) (scan : Text → Option Uuid) (encode : ℕ → Text)
    (fingerprint : Text → Text) (refresh_ttl : ℕ) where
  -- `newRefreshToken`: the token and its hash.
  unfoldable pub new_refresh_token : Action SessionError (Text × Text)
  new_refresh_token = do bytes ← draw host other; pure (encode bytes, fingerprint (encode bytes))

  -- `Create`
  unfoldable pub create : Text → Action SessionError (Session × Text)
  create user_id = do
    throw_if (is_empty (trim_space user_id)) invalid_session
    token ← new_refresh_token
    now ← read_clock host
    session ← Repository.create s scan user_id token.1 (now + refresh_ttl)
    pure (session, token.0)

  -- `CreateForUser`
  abbrev pub create_for_user : Text → Action SessionError (Session × Text)
  create_for_user user_id = create user_id

  -- `ValidateAccessSession`
  unfoldable pub validate_access_session : Text → Action SessionError (Unit {0})
  validate_access_session session_id = do
    throw_if (is_empty (trim_space session_id)) invalid_session
    result ← attempt (Repository.get_active_by_id s scan session_id)
    any_is_invalid result

  -- `Refresh`
  unfoldable pub refresh : Text → Action SessionError (Session × Text)
  refresh refresh_token = do
    throw_if (is_empty (trim_space refresh_token)) invalid_refresh_token
    token ← new_refresh_token
    session ← Repository.rotate s scan (fingerprint (trim_space refresh_token)) token.1
    pure (session, token.0)

  -- `Revoke`
  unfoldable pub revoke : Text → Action SessionError (Unit {0})
  revoke session_id = do
    throw_if (is_empty (trim_space session_id)) invalid_session
    Repository.revoke s scan session_id

  -- `RevokeAllForUser`
  unfoldable pub revoke_all_for_user : Text → Action SessionError (Unit {0})
  revoke_all_for_user user_id = do
    throw_if (is_empty (trim_space user_id)) invalid_session
    Repository.revoke_all_for_user s scan user_id
