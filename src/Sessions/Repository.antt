-- ===== src/Sessions/Repository.antt =====
-- internal/sessions/repository.go: one statement for each method.
use mlakp_backend.Base.{Option, none, some, Result, ok, err}
use mlakp_backend.Text.{Text}
use mlakp_backend.Store.{
  Server, Action, Uuid, Time, SqlError, no_rows, failed, duplicate, exec, pure, lift, on_error,
  ◌>>=◌,
}
use mlakp_backend.Sql.Sessions.{
  create_auth_session, get_active_auth_session, rotate_refresh_token, revoke_auth_session,
  revoke_all_user_sessions,
}
use mlakp_backend.Sessions.{
  SessionError, invalid_refresh_token, invalid_session, other, Session, session_from_sqlc,
}

abbrev pub any_error : SqlError → SessionError
any_error e = other

-- `if errors.Is(err, pgx.ErrNoRows) { return ErrInvalidSession }; return err`
abbrev pub invalid_session_or_other : SqlError → SessionError
invalid_session_or_other no_rows = invalid_session
invalid_session_or_other failed = other
invalid_session_or_other (duplicate name) = other

-- `if errors.Is(err, pgx.ErrNoRows) { return ErrInvalidRefreshToken }; return err`
abbrev pub invalid_token_or_other : SqlError → SessionError
invalid_token_or_other no_rows = invalid_refresh_token
invalid_token_or_other failed = other
invalid_token_or_other (duplicate name) = other

module _ (s : Server) (scan : Text → Option Uuid) where
  -- `parseUUID`, whose errors the methods turn into `ErrInvalidSession`.
  abbrev pub parse_uuid : Text → Result SessionError Uuid
  parse_uuid value = elim (scan value) [ none ↦ err invalid_session | some u ↦ ok u ]

  -- `Create`
  unfoldable pub create : Text → Text → Time → Action SessionError Session
  create user_id refresh_token_hash expires_at = do
    user ← lift (parse_uuid user_id)
    session ← on_error any_error (
        exec s (
          create_auth_session (record {
            user_id = user;
            refresh_token_hash = refresh_token_hash;
            expires_at = expires_at;
          })))
    pure (session_from_sqlc session)

  -- `GetActiveByID`
  unfoldable pub get_active_by_id : Text → Action SessionError Session
  get_active_by_id id = do
    session_id ← lift (parse_uuid id)
    session ← on_error invalid_session_or_other (exec s (get_active_auth_session session_id))
    pure (session_from_sqlc session)

  -- `RotateRefreshToken`
  unfoldable pub rotate : Text → Text → Action SessionError Session
  rotate old_hash new_hash = do
    session ← on_error invalid_token_or_other (exec s (rotate_refresh_token old_hash new_hash))
    pure (session_from_sqlc session)

  -- `Revoke`
  unfoldable pub revoke : Text → Action SessionError (Unit {0})
  revoke id = do
    session_id ← lift (parse_uuid id)
    on_error any_error (exec s (revoke_auth_session session_id))

  -- `RevokeAllForUser`
  unfoldable pub revoke_all_for_user : Text → Action SessionError (Unit {0})
  revoke_all_for_user user_id = do
    user ← lift (parse_uuid user_id)
    on_error any_error (exec s (revoke_all_user_sessions user))
