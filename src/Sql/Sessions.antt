-- ===== src/Sql/Sessions.antt =====
-- internal/postgres/sqlc/auth_sessions.sql.go: the statements on the table `auth_sessions`, with the
-- constraints of migrations/20260505000200_auth_sessions.up.sql.
use mlakp_backend.Base.{
  Bool, true, false, not, ◌&&◌, Option, none, some, List, ◌∷◌, Result, ok, err, ltb, ◌==◌,
  if◌then◌else◌,
}
use mlakp_backend.Text.{Text, text_eq, lit}
use mlakp_backend.Store.{
  Query, SqlError, no_rows, failed, duplicate, Uuid, Time, Db, SessionRow, UserRow,
}
use mlakp_backend.Sql.Rows.{find_row, update_rows, any_row}
use mlakp_backend.Sql.Keys.{distinct}
use mlakp_backend.Sql.Debts.{one_row}

abbrev pub is_null : Option Time → Bool
is_null none = true
is_null (some t) = false

abbrev pub user_has_id : Uuid → UserRow → Bool
user_has_id id u = u.id == id

abbrev pub session_has_id : Uuid → SessionRow → Bool
session_has_id id r = r.id == id

abbrev pub has_hash : Text → SessionRow → Bool
has_hash hash r = text_eq hash r.refresh_token_hash

-- `UNIQUE (refresh_token_hash)`
abbrev pub same_hash : SessionRow → SessionRow → Bool
same_hash r x = text_eq r.refresh_token_hash x.refresh_token_hash

-- `revoked_at IS NULL AND expires_at > now()`
abbrev pub is_active : Time → SessionRow → Bool
is_active now r = is_null r.revoked_at && ltb now r.expires_at

-- `CreateAuthSessionParams`
pub record CreateAuthSessionParams : Type 0 where
  pub user_id : Uuid
  pub refresh_token_hash : Text
  pub expires_at : Time

abbrev pub new_session : CreateAuthSessionParams → Uuid → Time → SessionRow
new_session arg id now = record {
  id = id;
  user_id = arg.user_id;
  refresh_token_hash = arg.refresh_token_hash;
  created_at = now;
  expires_at = arg.expires_at;
  revoked_at = none;
  last_used_at = none;
}

-- The constraints: the session expires after its creation, the key and the hash are new, the user
-- exists.
unfoldable pub create_auth_session : CreateAuthSessionParams → Query SessionRow
create_auth_session arg id now db =
    if not (ltb now arg.expires_at)
    then err failed
    else if any_row (session_has_id id) db.sessions
    then err (duplicate (lit "auth_sessions_pkey"))
    else if any_row (has_hash arg.refresh_token_hash) db.sessions
    then err (duplicate (lit "auth_sessions_refresh_token_hash_unique"))
    else if any_row (user_has_id arg.user_id) db.users
    then ok (new_session arg id now, record db { sessions = new_session arg id now ∷ db.sessions })
    else err failed

abbrev pub may_use : Uuid → Time → SessionRow → Bool
may_use session_id now r = r.id == session_id && is_active now r

unfoldable pub get_active_auth_session : Uuid → Query SessionRow
get_active_auth_session session_id id now db =
    one_row (find_row (may_use session_id now) db.sessions) db

abbrev pub may_rotate : Text → Time → SessionRow → Bool
may_rotate hash now r = has_hash hash r && is_active now r

abbrev pub rotate_row : Text → Time → SessionRow → SessionRow
rotate_row hash now r = record r { refresh_token_hash = hash; last_used_at = some now }

-- The new hashes have to be distinct again.
abbrev pub checked_sessions : Db → SessionRow → List SessionRow → Result SqlError (SessionRow × Db)
checked_sessions db r rows =
    if distinct same_hash rows
    then ok (r, record db { sessions = rows })
    else err (duplicate (lit "auth_sessions_refresh_token_hash_unique"))

unfoldable pub rotate_refresh_token : Text → Text → Query SessionRow
rotate_refresh_token old_hash new_hash id now db =
    elim (find_row (may_rotate old_hash now) db.sessions) [
      | none ↦ err no_rows
      | some r ↦
          checked_sessions db (rotate_row new_hash now r)
            (update_rows (may_rotate old_hash now) (rotate_row new_hash now) db.sessions)
    ]

abbrev pub revoke_row : Time → SessionRow → SessionRow
revoke_row now r = record r { revoked_at = some now }

abbrev pub may_revoke : Uuid → SessionRow → Bool
may_revoke session_id r = r.id == session_id && is_null r.revoked_at

unfoldable pub revoke_auth_session : Uuid → Query (Unit {0})
revoke_auth_session session_id id now db =
    ok (
      tt,
      record db { sessions = update_rows (may_revoke session_id) (revoke_row now) db.sessions },
    )

abbrev pub may_revoke_of : Uuid → SessionRow → Bool
may_revoke_of user_id r = r.user_id == user_id && is_null r.revoked_at

unfoldable pub revoke_all_user_sessions : Uuid → Query (Unit {0})
revoke_all_user_sessions user_id id now db =
    ok (
      tt,
      record db { sessions = update_rows (may_revoke_of user_id) (revoke_row now) db.sessions },
    )
