-- ===== src/Users/Keys.antt =====
-- The unique columns of the table of users, against its statements.
use mlakp_backend.Base.{
  ◌≡◌, refl, sym, ap, ok_injective, Bool, true, false, ◌∷◌, ok, ◌==◌, Bool-cases, Option-cases, inl,
  inr,
}
use mlakp_backend.Text.{Text, text_eq}
use mlakp_backend.Store.{Db, Uuid, Time, UserRow}
use mlakp_backend.Sql.Rows.{find_row, update_rows, any_row}
use mlakp_backend.Sql.Keys.{distinct, distinct-update_rows}
use mlakp_backend.Sql.Sessions.{user_has_id}
use mlakp_backend.Sql.Users.{
  CreateUserParams, new_user, create_user, is_valid_user, has_email, has_username, same_username,
  mark_email_verified, verified_user, update_user_password, with_password, update_user_username,
  with_username, checked_users, is_username,
}

-- `PRIMARY KEY` and `UNIQUE (email)`
abbrev pub same_user : UserRow → UserRow → Bool
same_user u x = x.id == u.id

abbrev pub same_email : UserRow → UserRow → Bool
same_email u x = text_eq u.email x.email

-- No two users share an id, a user name or an address.
pub record HasUserKeys (db : Db) : Type 0 where
  pub ids : distinct same_user db.users ≡ true
  pub usernames : distinct same_username db.users ≡ true
  pub emails : distinct same_email db.users ≡ true

-- What an insertion that returns has checked, and what it returns.
pub record Inserted (arg : CreateUserParams) (id : Uuid) (now : Time) (db : Db) (u : UserRow)
    (db' : Db) : Type 0 where
  pub row : u ≡ new_user arg id now
  pub table : db'.users ≡ new_user arg id now ∷ db.users
  pub new_id : any_row (user_has_id id) db.users ≡ false
  pub new_email : any_row (has_email arg.email) db.users ≡ false
  pub new_name : any_row (has_username arg.username) db.users ≡ false

pub create_inserts :
    (lower : Text → Text) (arg : CreateUserParams) (id : Uuid) (now : Time) (db : Db) (u : UserRow)
    (db' : Db)
    → create_user lower arg id now db ≡ ok (u, db')
    → Inserted arg id now db u db'
unfolding create_user
create_inserts lower arg id now db u db' h = elim (Bool-cases (is_valid_user lower arg)) [
  | inr a ↦ let no = rw a at h in absurd (cc)
  | inl a ↦ elim (Bool-cases (any_row (user_has_id id) db.users)) [
    | inl b ↦ let no = rw (a, b) at h in absurd (cc)
    | inr b ↦ elim (Bool-cases (any_row (has_email arg.email) db.users)) [
      | inl c ↦ let no = rw (a, b, c) at h in absurd (cc)
      | inr c ↦ elim (Bool-cases (any_row (has_username arg.username) db.users)) [
        | inl d ↦ let no = rw (a, b, c, d) at h in absurd (cc)
        | inr d ↦
            let done = ok_injective (rw (a, b, c, d) at h) in
            record {
              row = sym (ap (λ x. x.0) done);
              table = sym (ap (λ x. x.1.users) done);
              new_id = b;
              new_email = c;
              new_name = d;
            }
      ]
    ]
  ]
]

pub create-HasUserKeys :
    (lower : Text → Text) (arg : CreateUserParams) (id : Uuid) (now : Time) (db : Db) (u : UserRow)
    (db' : Db)
    → HasUserKeys db
    → create_user lower arg id now db ≡ ok (u, db')
    → HasUserKeys db'
unfolding distinct any_row
create-HasUserKeys lower arg id now db u db' keys h =
    let put = create_inserts lower arg id now db u db' h in
    record {
      ids = rw (put.table, put.new_id, keys.ids) refl;
      usernames = rw (put.table, put.new_name, keys.usernames) refl;
      emails = rw (put.table, put.new_email, keys.emails) refl;
    }

updated-HasUserKeys :
    (p : UserRow → Bool) (f : UserRow → UserRow) (db db' : Db)
    → ((u : UserRow) → (f u).id ≡ u.id)
    → ((u : UserRow) → (f u).username ≡ u.username)
    → ((u : UserRow) → (f u).email ≡ u.email)
    → HasUserKeys db
    → db'.users ≡ update_rows p f db.users
    → HasUserKeys db'
updated-HasUserKeys p f db db' ids names emails keys e = record {
  ids = rw e (
      distinct-update_rows same_user p f db.users (λ u x. rw (ids x) refl) (λ u x. rw (ids u) refl)
        keys.ids);
  usernames = rw e (
      distinct-update_rows same_username p f db.users (λ u x. rw (names x) refl)
        (λ u x. rw (names u) refl) keys.usernames);
  emails = rw e (
      distinct-update_rows same_email p f db.users (λ u x. rw (emails x) refl)
        (λ u x. rw (emails u) refl) keys.emails);
}

pub password-HasUserKeys :
    (user_id : Uuid) (hash : Text) (id : Uuid) (now : Time) (db : Db) (x : Unit {0}) (db' : Db)
    → HasUserKeys db
    → update_user_password user_id hash id now db ≡ ok (x, db')
    → HasUserKeys db'
unfolding update_user_password
password-HasUserKeys user_id hash id now db x db' keys h =
    updated-HasUserKeys (user_has_id user_id) (with_password hash now) db db' (λ u. refl)
      (λ u. refl) (λ u. refl) keys (sym (ap (λ y. y.1.users) (ok_injective h)))

pub verified-HasUserKeys :
    (user_id id : Uuid) (now : Time) (db : Db) (x : UserRow) (db' : Db)
    → HasUserKeys db
    → mark_email_verified user_id id now db ≡ ok (x, db')
    → HasUserKeys db'
unfolding mark_email_verified
verified-HasUserKeys user_id id now db x db' keys h =
    elim (Option-cases (find_row (user_has_id user_id) db.users)) [
      | inl e ↦ let no = rw (e, mark_email_verified) at h in absurd (cc)
      | inr (u, e) ↦
          updated-HasUserKeys (user_has_id user_id) (verified_user now) db db' (λ u. refl)
            (λ u. refl) (λ u. refl) keys
            (sym (ap (λ y. y.1.users) (ok_injective (rw (e, mark_email_verified) at h))))
    ]

checked-HasUserKeys :
    (user_id : Uuid) (username : Text) (now : Time) (db : Db) (u x : UserRow) (db' : Db)
    → HasUserKeys db
    → checked_users db u (update_rows (user_has_id user_id) (with_username username now) db.users)
      ≡ ok (x, db')
    → HasUserKeys db'
checked-HasUserKeys user_id username now db u x db' keys h =
    let p = user_has_id user_id in
    let f = with_username username now in
    elim (Bool-cases (is_username u.username)) [
      | inr a ↦ let no = rw a at h in absurd (cc)
      | inl a ↦ elim (Bool-cases (distinct same_username (update_rows p f db.users))) [
        | inr b ↦ let no = rw (a, b) at h in absurd (cc)
        | inl b ↦
            let table = sym (ap (λ y. y.1.users) (ok_injective (rw (a, b) at h))) in
            record {
              ids = rw table (
                  distinct-update_rows same_user p f db.users (λ u x. refl) (λ u x. refl) keys.ids);
              usernames = rw table b;
              emails = rw table (
                  distinct-update_rows same_email p f db.users (λ u x. refl) (λ u x. refl)
                    keys.emails);
            }
      ]
    ]

pub username-HasUserKeys :
    (user_id : Uuid) (username : Text) (id : Uuid) (now : Time) (db : Db) (x : UserRow) (db' : Db)
    → HasUserKeys db
    → update_user_username user_id username id now db ≡ ok (x, db')
    → HasUserKeys db'
unfolding update_user_username
username-HasUserKeys user_id username id now db x db' keys h =
    elim (Option-cases (find_row (user_has_id user_id) db.users)) [
      | inl e ↦ let no = rw (e, update_user_username) at h in absurd (cc)
      | inr (u, e) ↦
          checked-HasUserKeys user_id username now db (with_username username now u) x db' keys
            (rw (e, update_user_username) at h)
    ]
