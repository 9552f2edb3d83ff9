-- ===== src/Users/Steps.antt =====
-- The requests to the service of users, and the unique columns over sequences of them.
use mlakp_backend.Base.{
  ◌≡◌, ap, subst, ℕ, ◌==◌, if◌then◌else◌, Option, none, some, ok, err, Result, ok_injective, not,
  Bool,
}
use mlakp_backend.Text.{Text, trim_space, is_empty}
use mlakp_backend.Store.{
  Server, Host, World, Db, Uuid, UserRow, exec, lift, on_error, pure, draw, throw_if,
}
use mlakp_backend.Store.Leads.{
  Leads, pure-Leads, guard-Leads, exec-Leads, then-Leads, on_error-Leads,
}
use mlakp_backend.Sql.Rows.{find_row}
use mlakp_backend.Sql.Debts.{one_row}
use mlakp_backend.Sql.Users as Sql
use mlakp_backend.Sql.Users.{
  CreateUserParams, create_user, get_user_by_email, has_email, update_user_password,
  update_user_username,
}
use mlakp_backend.Users.{
  UserError, other, not_found, public_user_from_fields, private_user_from_fields,
}
use mlakp_backend.Users.Validation.{
  validate_name, validate_username, validate_email, validate_password, normalize_username,
  normalize_email,
}
use mlakp_backend.Users.Repository as Repository
use mlakp_backend.Users.Repository.{
  any_error, create_error, username_error, not_found_or_other, parse_uuid,
}
use mlakp_backend.Users.Service.{
  hash_password, register, authenticate, update_username, update_password, or_not_found,
}
use mlakp_backend.Users.Keys.{
  HasUserKeys, create-HasUserKeys, password-HasUserKeys, verified-HasUserKeys, username-HasUserKeys,
}

pub data Request : Type 0 where
  register_user : Text → Text → Text → Text → Request
  log_in : Text → Text → Request
  rename : Text → Text → Request
  new_password : Text → Text → Request
  verify_email : Text → Request

found_keys :
    (o : Option UserRow) (db : Db) {u : UserRow} {db' : Db}
    → one_row o db ≡ ok (u, db')
    → HasUserKeys db
    → HasUserKeys db'
found_keys none db h keys = absurd (cc)
found_keys (some x) db h keys = subst HasUserKeys (ap (λ y. y.1) (ok_injective h)) keys

module _ (scan : Text → Option Uuid) (lower to_lower : Text → Text)
    (bcrypt_hash : ℕ → ℕ → Text → Option Text) (bcrypt_compare : Text → Text → Bool)
    (default_cost cost : ℕ) where
  -- The world after a request, with a server and a host of its own.
  unfoldable pub serve : Server → Host → Request → World → World
  serve s host (register_user name username email password) w =
      (register s host scan lower to_lower bcrypt_hash bcrypt_compare default_cost cost name
        username email password w).1
  serve s host (log_in email password) w =
      (authenticate s host scan lower to_lower bcrypt_hash bcrypt_compare default_cost cost email
        password w).1
  serve s host (rename id username) w =
      (update_username s host scan lower to_lower bcrypt_hash bcrypt_compare default_cost cost id
        username w).1
  serve s host (new_password id password) w =
      (update_password s host scan lower to_lower bcrypt_hash bcrypt_compare default_cost cost id
        password w).1
  serve s host (verify_email id) w = (Repository.mark_email_verified s scan lower id w).1

  -- The worlds that a sequence of requests leads to.
  pub data Reaches (start : World) : World → Type 0 where
    nothing : Reaches start start
    then_one :
        (s : Server) (host : Host) (r : Request) {w : World}
        → Reaches start w
        → Reaches start (serve s host r w)

  module _ (s : Server) (host : Host) where
    lifted : {A : Type 0} (r : Result UserError A) → Leads HasUserKeys HasUserKeys (lift r)
    lifted r = record { at = λ w p. p }

    drawn : Leads HasUserKeys HasUserKeys (draw host other)
    unfolding draw
    drawn = record { at = λ w p. p }

    hashed :
        (password : Text)
        → Leads HasUserKeys HasUserKeys (
            hash_password s host scan lower to_lower bcrypt_hash bcrypt_compare default_cost cost
              password)
    unfolding hash_password
    hashed password =
        then-Leads
          {f = λ salt.
            lift (elim (bcrypt_hash (if cost == 0 then default_cost else cost) salt password) [
              | none ↦ err other
              | some h ↦ ok h
            ])}
          drawn (λ salt. record { at = λ w p. p })

    created :
        (name username email hash : Text)
        → Leads HasUserKeys HasUserKeys (Repository.create s scan lower name username email hash)
    unfolding Repository.create
    created name username email hash =
        let arg : CreateUserParams = record {
          name = name;
          username = username;
          email = email;
          password_hash = hash;
        } in
        then-Leads {m = on_error create_error (exec s (create_user lower arg))}
          (on_error-Leads create_error (
            exec-Leads s (create_user lower arg) (λ db h. h)
              (λ id now db u db' keys h. create-HasUserKeys lower arg id now db u db' keys h)))
          (λ u. pure-Leads (λ db h. h) (private_user_from_fields u))

    register-Leads :
        (name username email password : Text)
        → Leads HasUserKeys HasUserKeys (
            register s host scan lower to_lower bcrypt_hash bcrypt_compare default_cost cost name
              username email password)
    unfolding register
    register-Leads name username email password =
        then-Leads (lifted (validate_name (trim_space name))) (λ _.
          then-Leads (lifted (validate_username (normalize_username to_lower username))) (λ _.
            then-Leads (lifted (validate_email (normalize_email to_lower email))) (λ _.
              then-Leads (lifted (validate_password password)) (λ _.
                then-Leads (hashed password) (λ hash.
                  then-Leads
                    (created (trim_space name) (normalize_username to_lower username)
                      (normalize_email to_lower email) hash)
                    (λ u. pure-Leads (λ db h. h) u.user))))))

    looked_up :
        (email : Text) → Leads HasUserKeys HasUserKeys (Repository.get_by_email s scan lower email)
    unfolding Repository.get_by_email get_user_by_email
    looked_up email =
        then-Leads {m = on_error not_found_or_other (exec s (get_user_by_email email))}
          (on_error-Leads not_found_or_other (
            exec-Leads s (get_user_by_email email) (λ db h. h)
              (λ id now db u db' keys h.
                found_keys (find_row (has_email email) db.users) db h keys)))
          (λ u. pure-Leads (λ db h. h) (private_user_from_fields u))

    authenticate-Leads :
        (email password : Text)
        → Leads HasUserKeys HasUserKeys (
            authenticate s host scan lower to_lower bcrypt_hash bcrypt_compare default_cost cost
              email password)
    unfolding authenticate
    authenticate-Leads email password =
        then-Leads (lifted (or_not_found (validate_email (normalize_email to_lower email)))) (λ _.
          then-Leads (looked_up (normalize_email to_lower email)) (λ u.
            guard-Leads (λ db h. h) (not (bcrypt_compare u.password_hash password)) not_found
              (λ _. pure u.user) (λ _. pure-Leads (λ db h. h) u.user)))

    rename-Leads :
        (id username : Text)
        → Leads HasUserKeys HasUserKeys (
            update_username s host scan lower to_lower bcrypt_hash bcrypt_compare default_cost cost
              id username)
    unfolding update_username Repository.update_username
    rename-Leads id username =
        let name = normalize_username to_lower username in
        then-Leads {m = throw_if (is_empty (trim_space id)) not_found} (record { at = λ w p. p })
          (λ _. then-Leads (lifted (validate_username name)) (λ _.
            then-Leads (lifted (parse_uuid s scan lower id)) (λ user_id.
              then-Leads {m = on_error username_error (exec s (update_user_username user_id name))}
                (on_error-Leads username_error (
                  exec-Leads s (update_user_username user_id name) (λ db h. h)
                    (λ t now db u db' keys h.
                      username-HasUserKeys user_id name t now db u db' keys h)))
                (λ u. pure-Leads (λ db h. h) (public_user_from_fields u)))))

    password-Leads :
        (id password : Text)
        → Leads HasUserKeys HasUserKeys (
            update_password s host scan lower to_lower bcrypt_hash bcrypt_compare default_cost cost
              id password)
    unfolding update_password Repository.update_password
    password-Leads id password = then-Leads (lifted (validate_password password)) (λ _.
        then-Leads (hashed password) (λ hash.
          then-Leads (lifted (parse_uuid s scan lower id)) (λ user_id. on_error-Leads any_error (
            exec-Leads s (update_user_password user_id hash) (λ db h. h)
              (λ t now db u db' keys h. password-HasUserKeys user_id hash t now db u db' keys h)))))

    verify_email-Leads :
        (id : Text) → Leads HasUserKeys HasUserKeys (Repository.mark_email_verified s scan lower id)
    unfolding Repository.mark_email_verified
    verify_email-Leads id = then-Leads (lifted (parse_uuid s scan lower id)) (λ user_id.
        then-Leads {m = on_error not_found_or_other (exec s (Sql.mark_email_verified user_id))}
          (on_error-Leads not_found_or_other (
            exec-Leads s (Sql.mark_email_verified user_id) (λ db h. h)
              (λ t now db u db' keys h. verified-HasUserKeys user_id t now db u db' keys h)))
          (λ u. pure-Leads (λ db h. h) (public_user_from_fields u)))

    serve-HasUserKeys :
        (r : Request) (w : World) → HasUserKeys w.db → HasUserKeys (serve s host r w).db
    unfolding serve
    serve-HasUserKeys (register_user name username email password) w v =
        (register-Leads name username email password).at w v
    serve-HasUserKeys (log_in email password) w v = (authenticate-Leads email password).at w v
    serve-HasUserKeys (rename id username) w v = (rename-Leads id username).at w v
    serve-HasUserKeys (new_password id password) w v = (password-Leads id password).at w v
    serve-HasUserKeys (verify_email id) w v = (verify_email-Leads id).at w v

  -- No two users ever share an id, a user name or an address: where it is so at first, every sequence
  -- of requests to register, log in, rename, change a password and verify an address keeps it so,
  -- whatever the server does.
  pub users_unique : {start w : World} → HasUserKeys start.db → Reaches start w → HasUserKeys w.db
  users_unique keys nothing = keys
  users_unique keys (then_one s host r {w} before) =
      serve-HasUserKeys s host r w (users_unique keys before)
