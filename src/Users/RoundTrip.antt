-- ===== src/Users/RoundTrip.antt =====
-- Registering, and logging in with what one registered with.
use mlakp_backend.Base.{
  ◌≡◌, refl, sym, ap, subst, ◌∙◌, ℕ, ◌==◌, if◌then◌else◌, Bool, true, false, not, Option, none,
  some, ok, err, Result, ok_injective, suc,
}
use mlakp_backend.Text.{Text, trim_space}
use mlakp_backend.Text.Laws.{text_eq_refl}
use mlakp_backend.Store.{
  Server, Host, World, Action, Db, Uuid, UserRow, exec, lift, on_error, pure, throw_if, ◌>>=◌,
}
use mlakp_backend.Store.Laws.{exec_returns, bind_runs, on_error_runs}
use mlakp_backend.Store.Spec.{
  Ensures, by_pure, by_lift, by_bind, by_on_error, by_exec, strengthen, by_fact,
}
use mlakp_backend.Store.Outside.{by_draw, ok_post}
use mlakp_backend.Sql.Rows.{find_row}
use mlakp_backend.Sql.Debts.{one_row}
use mlakp_backend.Sql.Users.{CreateUserParams, create_user, get_user_by_email, has_email}
use mlakp_backend.Users.{
  UserError, other, not_found, User, PrivateUser, public_user_from_fields, private_user_from_fields,
}
use mlakp_backend.Users.Validation.{
  validate_name, validate_username, validate_email, validate_password, normalize_username,
  normalize_email,
}
use mlakp_backend.Users.Repository as Repository
use mlakp_backend.Users.Repository.{create_error, not_found_or_other}
use mlakp_backend.Users.Service.{hash_password, register, authenticate}
use mlakp_backend.Users.Keys.{create_inserts}

-- The user is found under the address, and the password was hashed for it.
record Registered (bcrypt_hash : ℕ → ℕ → Text → Option Text) (email password : Text) (user : User)
    (db : Db) : Type 0 where
  pub row : UserRow
  pub found : find_row (has_email email) db.users ≡ some row
  pub is_user : user ≡ public_user_from_fields row
  pub cost : ℕ
  pub salt : ℕ
  pub hashed : bcrypt_hash cost salt password ≡ some row.password_hash
  pub valid : validate_email email ≡ ok tt

unit_ok : (r : Result UserError (Unit {0})) {u : Unit {0}} → r ≡ ok u → r ≡ ok tt
unit_ok r h = h

hash_ok :
    (o : Option Text) {h : Text} → elim o [ none ↦ err other | some x ↦ ok x ] ≡ ok h → o ≡ some h
hash_ok none e = absurd (let no : ◌≡◌ {A = Result UserError Text} (err other) _ = e in cc)
hash_ok (some x) e = ap some (ok_injective e)

module _ (s : Server) (host : Host) (scan : Text → Option Uuid) (lower to_lower : Text → Text)
    (bcrypt_hash : ℕ → ℕ → Text → Option Text) (bcrypt_compare : Text → Text → Bool)
    (default_cost cost : ℕ) where
  hash-Ensures :
      {P : Db → Type 0} (password : Text)
      → Ensures P
          (hash_password s host scan lower to_lower bcrypt_hash bcrypt_compare default_cost cost
            password)
          (λ h _. (c : ℕ) × (salt : ℕ) × (bcrypt_hash c salt password ≡ some h))
          (λ _. Unit {0})
  unfolding hash_password
  hash-Ensures {P} password =
      let c = if cost == 0 then default_cost else cost in
      by_bind
        {f = λ salt. lift (elim (bcrypt_hash c salt password) [ none ↦ err other | some h ↦ ok h ])}
        (by_draw host other tt)
        (λ salt.
          strengthen (λ h db (e, p). (c, salt, hash_ok (bcrypt_hash c salt password) e))
            (by_lift (elim (bcrypt_hash c salt password) [ none ↦ err other | some h ↦ ok h ])
              (λ _ _. tt)))

  create-Ensures :
      {P : Db → Type 0} (name username email hash : Text)
      → Ensures P
          (Repository.create s scan lower name username email hash)
          (λ v db.
            (u : UserRow) × (find_row (has_email email) db.users ≡ some u)
            × (v ≡ private_user_from_fields u)
            × (u.password_hash ≡ hash))
          (λ _. Unit {0})
  unfolding Repository.create find_row
  create-Ensures name username email hash =
      let arg : CreateUserParams = record {
        name = name;
        username = username;
        email = email;
        password_hash = hash;
      } in
      by_bind
        {Q = λ u db. (find_row (has_email email) db.users ≡ some u) × (u.password_hash ≡ hash)}
        {m = on_error create_error (exec s (create_user lower arg))}
        (by_on_error create_error (
          by_exec s (create_user lower arg) tt
            (λ id now db u db' p h.
              let put = create_inserts lower arg id now db u db' h in
              (rw (put.table, put.row, text_eq_refl email) refl, rw put.row refl))
            (λ _ _ _ _ _ _. tt)))
        (λ u. by_pure _ (λ db (found, same). (u, found, refl, same)))

  register-Ensures :
      {P : Db → Type 0} (name username email password : Text)
      → Ensures P
          (register s host scan lower to_lower bcrypt_hash bcrypt_compare default_cost cost name
            username email password)
          (λ user db. Registered bcrypt_hash (normalize_email to_lower email) password user db)
          (λ _. Unit {0})
  unfolding register private_user_from_fields
  register-Ensures name username email password =
      let address = normalize_email to_lower email in
      by_bind (by_lift (validate_name (trim_space name)) (λ _ _. tt)) (λ _.
        by_bind (by_lift (validate_username (normalize_username to_lower username)) (λ _ _. tt))
          (λ _. by_bind (by_lift (validate_email address) (λ _ _. tt)) (λ checked.
            by_fact (validate_email address ≡ ok checked) (λ db p. p.0)
              (λ valid. by_bind (by_lift (validate_password password) (λ _ _. tt)) (λ _.
                by_bind (hash-Ensures password) (λ hash.
                  by_fact ((c : ℕ) × (salt : ℕ) × (bcrypt_hash c salt password ≡ some hash))
                    (λ db p. p)
                    (λ (c, salt, made).
                      by_bind
                        (create-Ensures (trim_space name) (normalize_username to_lower username)
                          address hash)
                        (λ v. by_pure v.user (λ db (u, found, read, same). record {
                          row = u;
                          found = found;
                          is_user = ap (λ x. x.user) read;
                          cost = c;
                          salt = salt;
                          hashed = made ∙ ap some (sym same);
                          valid = valid;
                        })))))))))

  looked_up :
      (email : Text) (w : World) (u : UserRow)
      → s.fails w.tick ≡ false
      → find_row (has_email email) w.db.users ≡ some u
      → Repository.get_by_email s scan lower email w
        ≡ (ok (private_user_from_fields u), record w { tick = suc w.tick })
  unfolding Repository.get_by_email get_user_by_email
  looked_up email w u up found =
      bind_runs (on_error not_found_or_other (exec s (get_user_by_email email)))
        (λ row. pure (private_user_from_fields row)) w
        (on_error_runs not_found_or_other (exec s (get_user_by_email email)) w
          (exec_returns s (get_user_by_email email) w up (ap (λ o. one_row o w.db) found)))

  logs_in :
      (email password : Text) (w : World) (u : UserRow)
      → validate_email (normalize_email to_lower email) ≡ ok tt
      → s.fails w.tick ≡ false
      → find_row (has_email (normalize_email to_lower email)) w.db.users ≡ some u
      → bcrypt_compare u.password_hash password ≡ true
      → (authenticate s host scan lower to_lower bcrypt_hash bcrypt_compare default_cost cost email
          password w).0
        ≡ ok (public_user_from_fields u)
  unfolding authenticate private_user_from_fields
  logs_in email password w u valid up found fits =
      let address = normalize_email to_lower email in
      let rest : PrivateUser → Action UserError User = λ v.
        throw_if (not (bcrypt_compare v.password_hash password)) not_found >>= λ _. pure v.user in
      let got =
        bind_runs (Repository.get_by_email s scan lower address) rest w
          (looked_up address w u up found) in
      let checked : (rest (private_user_from_fields u) (record w { tick = suc w.tick })).0
          ≡ ok (public_user_from_fields u) =
        rw fits refl in
      rw valid (ap (λ x. x.0) got ∙ checked)

-- Who has just registered can log in with the same address and password, and gets the same user,
-- where the query does not fail and bcrypt finds that a password fits the hash made of it.
pub register-authenticate :
    (s s' : Server) (host host' : Host) (scan : Text → Option Uuid) (lower to_lower : Text → Text)
    (bcrypt_hash : ℕ → ℕ → Text → Option Text) (bcrypt_compare : Text → Text → Bool)
    (default_cost cost : ℕ) (name username email password : Text) (start : World) {now : World}
    {user : User}
    → ((c salt : ℕ) (p h : Text) → bcrypt_hash c salt p ≡ some h → bcrypt_compare h p ≡ true)
    → register s host scan lower to_lower bcrypt_hash bcrypt_compare default_cost cost name username
        email password start
      ≡ (ok user, now)
    → s'.fails now.tick ≡ false
    → (authenticate s' host' scan lower to_lower bcrypt_hash bcrypt_compare default_cost cost email
        password now).0
      ≡ ok user
register-authenticate s s' host host' scan lower to_lower bcrypt_hash bcrypt_compare default_cost
      cost name username email password start {now} {user} fits done up =
    let made : Registered bcrypt_hash (normalize_email to_lower email) password user now.db =
      subst (λ w. Registered bcrypt_hash (normalize_email to_lower email) password user w.db)
        (ap (λ x. x.1) done)
        (ok_post
          (register-Ensures s host scan lower to_lower bcrypt_hash bcrypt_compare default_cost cost
            {P = λ _. Unit {0}} name username email password)
          start tt (ap (λ x. x.0) done)) in
    logs_in s' host' scan lower to_lower bcrypt_hash bcrypt_compare default_cost cost email password
      now made.row made.valid up made.found
      (fits made.cost made.salt password made.row.password_hash made.hashed)
    ∙ ap ok (sym made.is_user)
