-- ===== src/Sql/Users.antt =====
-- internal/postgres/sqlc/users.sql.go: the statements on the table `users`, with the constraints of
-- migrations/20260505000100_init.up.sql and 20260505000600_usernames.up.sql. An `UPDATE` also sets
-- `updated_at`. `lower` is the database's function.
use mlakp_backend.Base.{
  ℕ, ◌+◌, ◌*◌, Bool, true, not, ◌&&◌, ◌||◌, none, some, List, [], ◌∷◌, Result, ok, err, leb, ◌==◌,
  length, if◌then◌else◌,
}
use mlakp_backend.Text.{Text, text_eq, lit}
use mlakp_backend.Store.{Query, SqlError, no_rows, failed, duplicate, Uuid, Time, Db, UserRow}
use mlakp_backend.Sql.Rows.{find_row, update_rows, any_row}
use mlakp_backend.Sql.Keys.{distinct}
use mlakp_backend.Sql.Debts.{one_row}
use mlakp_backend.Sql.Sessions.{user_has_id}

abbrev pub has_username : Text → UserRow → Bool
has_username username u = text_eq username u.username

abbrev pub has_email : Text → UserRow → Bool
has_email email u = text_eq email u.email

-- `UNIQUE (username)`
abbrev pub same_username : UserRow → UserRow → Bool
same_username u x = text_eq u.username x.username

-- `[a-z0-9_]`
abbrev pub is_username_char : ℕ → Bool
is_username_char c = (leb b'a' c && leb c b'z') || ((leb b'0' c && leb c b'9') || c == b'_')

unfoldable pub all_username_chars : Text → Bool
all_username_chars [] = true
all_username_chars (c ∷ s) = is_username_char c && all_username_chars s

-- `^[a-z0-9_]{3,30}$`
abbrev pub is_username : Text → Bool
is_username s = leb 3 (length s) && (leb (length s) 30 && all_username_chars s)

-- `CreateUserParams`
pub record CreateUserParams : Type 0 where
  pub name : Text
  pub username : Text
  pub email : Text
  pub password_hash : Text

-- `interval '7 days'`
abbrev pub grace_period : ℕ
grace_period = 7 * (24 * (3600 * 1000000))

abbrev pub new_user : CreateUserParams → Uuid → Time → UserRow
new_user arg id now = record {
  id = id;
  name = arg.name;
  username = arg.username;
  email = arg.email;
  password_hash = arg.password_hash;
  email_verified_at = none;
  verification_deadline = some (now + grace_period);
  created_at = now;
  updated_at = now;
}

-- The CHECK constraints of a user.
abbrev pub is_valid_user : (Text → Text) → CreateUserParams → Bool
is_valid_user lower arg =
    (leb 1 (length arg.name) && leb (length arg.name) 120)
    && (text_eq arg.email (lower arg.email) && is_username arg.username)

unfoldable pub create_user : (Text → Text) → CreateUserParams → Query UserRow
create_user lower arg id now db =
    if not (is_valid_user lower arg)
    then err failed
    else if any_row (user_has_id id) db.users
    then err (duplicate (lit "users_pkey"))
    else if any_row (has_email arg.email) db.users
    then err (duplicate (lit "users_email_unique"))
    else if any_row (has_username arg.username) db.users
    then err (duplicate (lit "users_username_unique"))
    else ok (new_user arg id now, record db { users = new_user arg id now ∷ db.users })

unfoldable pub get_user_by_email : Text → Query UserRow
get_user_by_email email id now db = one_row (find_row (has_email email) db.users) db

unfoldable pub get_user_by_id : Uuid → Query UserRow
get_user_by_id user_id id now db = one_row (find_row (user_has_id user_id) db.users) db

unfoldable pub get_user_by_username : Text → Query UserRow
get_user_by_username username id now db = one_row (find_row (has_username username) db.users) db

abbrev pub verified_user : Time → UserRow → UserRow
verified_user now u = record u { email_verified_at = some now; updated_at = now }

unfoldable pub mark_email_verified : Uuid → Query UserRow
mark_email_verified user_id id now db = elim (find_row (user_has_id user_id) db.users) [
  | none ↦ err no_rows
  | some u ↦ ok (
    verified_user now u,
    record db { users = update_rows (user_has_id user_id) (verified_user now) db.users },
  )
]

abbrev pub with_password : Text → Time → UserRow → UserRow
with_password hash now u = record u { password_hash = hash; updated_at = now }

unfoldable pub update_user_password : Uuid → Text → Query (Unit {0})
update_user_password user_id hash id now db =
    ok (
      tt,
      record db { users = update_rows (user_has_id user_id) (with_password hash now) db.users },
    )

abbrev pub with_username : Text → Time → UserRow → UserRow
with_username username now u = record u { username = username; updated_at = now }

-- The new names have to be distinct again.
abbrev pub checked_users : Db → UserRow → List UserRow → Result SqlError (UserRow × Db)
checked_users db u rows =
    if not (is_username u.username)
    then err failed
    else if distinct same_username rows
    then ok (u, record db { users = rows })
    else err (duplicate (lit "users_username_unique"))

unfoldable pub update_user_username : Uuid → Text → Query UserRow
update_user_username user_id username id now db = elim (find_row (user_has_id user_id) db.users) [
  | none ↦ err no_rows
  | some u ↦
      checked_users db (with_username username now u)
        (update_rows (user_has_id user_id) (with_username username now) db.users)
]
