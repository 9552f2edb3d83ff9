-- ===== src/Users/Repository.antt =====
-- internal/users/repository.go: one statement for each method; unique violations become the errors
-- of a conflict, by the name of the constraint.
use mlakp_backend.Base.{Bool, not, ◌||◌, Option, none, some, Result, ok, err, if◌then◌else◌}
use mlakp_backend.Text.{Text, text_eq, lit, is_empty}
use mlakp_backend.Store.{
  Server, Action, Uuid, SqlError, no_rows, failed, duplicate, exec, pure, lift, on_error, ◌>>=◌,
}
use mlakp_backend.Sql.Sessions.{revoke_all_user_sessions}
use mlakp_backend.Sql.Users as Sql
use mlakp_backend.Sql.Users.{
  create_user, get_user_by_email, get_user_by_id, get_user_by_username, update_user_password,
  update_user_username,
}
use mlakp_backend.Users.{
  UserError, not_found, email_conflict, username_conflict, other, User, PrivateUser,
  public_user_from_fields, private_user_from_fields,
}

abbrev pub any_error : SqlError → UserError
any_error e = other

-- `if errors.Is(err, pgx.ErrNoRows) { return ErrNotFound }; return err`
abbrev pub not_found_or_other : SqlError → UserError
not_found_or_other no_rows = not_found
not_found_or_other failed = other
not_found_or_other (duplicate name) = other

-- `isUniqueViolation`, of an error with SQLSTATE 23505.
abbrev pub is_unique_violation : Text → Bool
is_unique_violation name = not (is_empty name)

-- The errors of `Create`.
unfoldable pub create_error : SqlError → UserError
create_error no_rows = other
create_error failed = other
create_error (duplicate name) =
    if text_eq name (lit "users_username_unique")
    then username_conflict
    else if text_eq name (lit "users_email_unique") || is_unique_violation name
    then email_conflict
    else other

-- The errors of `UpdateUsername`.
unfoldable pub username_error : SqlError → UserError
username_error no_rows = not_found
username_error failed = other
username_error (duplicate name) =
    if text_eq name (lit "users_username_unique") || is_unique_violation name
    then username_conflict
    else other

module _ (s : Server) (scan : Text → Option Uuid) (lower : Text → Text) where
  -- `parseUUID`, whose errors the methods turn into `ErrNotFound`.
  abbrev pub parse_uuid : Text → Result UserError Uuid
  parse_uuid value = elim (scan value) [ none ↦ err not_found | some u ↦ ok u ]

  -- `Create`
  unfoldable pub create : Text → Text → Text → Text → Action UserError PrivateUser
  create name username email password_hash = do
    user ← on_error create_error (
        exec s (
          create_user lower (record {
            name = name;
            username = username;
            email = email;
            password_hash = password_hash;
          })))
    pure (private_user_from_fields user)

  -- `GetByEmail`
  unfoldable pub get_by_email : Text → Action UserError PrivateUser
  get_by_email email = do
    user ← on_error not_found_or_other (exec s (get_user_by_email email))
    pure (private_user_from_fields user)

  -- `GetByID`
  unfoldable pub get_by_id : Text → Action UserError User
  get_by_id id = do
    user_id ← lift (parse_uuid id)
    user ← on_error not_found_or_other (exec s (get_user_by_id user_id))
    pure (public_user_from_fields user)

  -- `GetByUsername`
  unfoldable pub get_by_username : Text → Action UserError User
  get_by_username username = do
    user ← on_error not_found_or_other (exec s (get_user_by_username username))
    pure (public_user_from_fields user)

  -- `UpdateUsername`
  unfoldable pub update_username : Text → Text → Action UserError User
  update_username id username = do
    user_id ← lift (parse_uuid id)
    user ← on_error username_error (exec s (update_user_username user_id username))
    pure (public_user_from_fields user)

  -- `MarkEmailVerified`
  unfoldable pub mark_email_verified : Text → Action UserError User
  mark_email_verified id = do
    user_id ← lift (parse_uuid id)
    user ← on_error not_found_or_other (exec s (Sql.mark_email_verified user_id))
    pure (public_user_from_fields user)

  -- `RevokeAllUserSessions`
  unfoldable pub revoke_all_sessions : Text → Action UserError (Unit {0})
  revoke_all_sessions user_id = do
    id ← lift (parse_uuid user_id)
    on_error any_error (exec s (revoke_all_user_sessions id))

  -- `UpdatePassword`
  unfoldable pub update_password : Text → Text → Action UserError (Unit {0})
  update_password user_id password_hash = do
    id ← lift (parse_uuid user_id)
    on_error any_error (exec s (update_user_password id password_hash))
