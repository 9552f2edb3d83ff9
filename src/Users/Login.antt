-- ===== src/Users/Login.antt =====
-- Logging in: what it stands for, and that a registered user can.
use mlakp_backend.Base.{
  ◌≡◌, refl, sym, ap, subst, ◌∙◌, ℕ, Bool, true, not, Option, none, some, ok, ok_injective, arith,
}
use mlakp_backend.Text.{Text}
use mlakp_backend.Store.{Server, Host, World, Db, Uuid, UserRow, exec, on_error}
use mlakp_backend.Store.Spec.{
  Ensures, by_pure, by_lift, by_throw_if, by_bind, by_on_error, by_exec, weaken,
}
use mlakp_backend.Store.Outside.{ok_post}
use mlakp_backend.Sql.Rows.{find_row}
use mlakp_backend.Sql.Debts.{one_row}
use mlakp_backend.Sql.Users.{get_user_by_email, has_email}
use mlakp_backend.Users.{not_found, User, public_user_from_fields, private_user_from_fields}
use mlakp_backend.Users.Validation.{validate_email, normalize_email}
use mlakp_backend.Users.Repository as Repository
use mlakp_backend.Users.Repository.{create_error, not_found_or_other}
use mlakp_backend.Users.Service.{authenticate, or_not_found}

found_row :
    (o : Option UserRow) (db : Db) {u : UserRow} {db' : Db}
    → one_row o db ≡ ok (u, db')
    → (o ≡ some u) × (db ≡ db')
found_row none db h = absurd (cc)
found_row (some x) db h = (ap (λ y. some y.0) (ok_injective h), ap (λ y. y.1) (ok_injective h))

module _ (s : Server) (host : Host) (scan : Text → Option Uuid) (lower to_lower : Text → Text)
    (bcrypt_hash : ℕ → ℕ → Text → Option Text) (bcrypt_compare : Text → Text → Bool)
    (default_cost cost : ℕ) where
  by_email-Ensures :
      (before : Db) (email : Text)
      → Ensures
          (λ db. db ≡ before)
          (Repository.get_by_email s scan lower email)
          (λ v db.
            (db ≡ before)
            × ((u : UserRow) × (find_row (has_email email) before.users ≡ some u)
                × (v ≡ private_user_from_fields u)))
          (λ _. Unit {0})
  unfolding Repository.get_by_email get_user_by_email
  by_email-Ensures before email =
      by_bind {Q = λ u db. (db ≡ before) × (find_row (has_email email) before.users ≡ some u)}
        {m = on_error not_found_or_other (exec s (get_user_by_email email))}
        (by_on_error not_found_or_other (
          by_exec s (get_user_by_email email) tt
            (λ id now db u db' same h.
              let (found, kept) = found_row (find_row (has_email email) db.users) db h in
              (
                sym kept ∙ same,
                subst (λ d. find_row (has_email email) d.users ≡ some u) same found,
              ))
            (λ _ _ _ _ _ _. tt)))
        (λ u. by_pure _ (λ db (same, found). (same, (u, found, refl))))

  authenticate-Ensures :
      (before : Db) (email password : Text)
      → Ensures
          (λ db. db ≡ before)
          (authenticate s host scan lower to_lower bcrypt_hash bcrypt_compare default_cost cost
            email password)
          (λ user db.
            (db ≡ before)
            × ((u : UserRow) × (find_row (has_email (normalize_email to_lower email)) before.users
                  ≡ some u)
                × (bcrypt_compare u.password_hash password ≡ true)
                × (user ≡ public_user_from_fields u)))
          (λ _. Unit {0})
  unfolding authenticate private_user_from_fields
  authenticate-Ensures before email password =
      by_bind (by_lift (or_not_found (validate_email (normalize_email to_lower email))) (λ _ _. tt))
        (λ _.
          by_bind (weaken (λ db p. p.1) (by_email-Ensures before (normalize_email to_lower email)))
            (λ v.
              by_bind
                (by_throw_if (not (bcrypt_compare v.password_hash password)) not_found
                  (λ _ _ _. tt))
                (λ _. by_pure v.user (λ db ((same, (u, found, read)), fits). (
                  same,
                  (
                    u,
                    found,
                    subst (λ x. bcrypt_compare x.password_hash password ≡ true) read (ground arith),
                    ap (λ x. x.user) read,
                  ),
                )))))

  -- Who is logged in is the user with the address, in lower case and without the blanks around it,
  -- whose hash fits the password; nothing is changed.
  pub authenticate_sound :
      (email password : Text) (w : World) {user : User}
      → (authenticate s host scan lower to_lower bcrypt_hash bcrypt_compare default_cost cost email
          password w).0
        ≡ ok user
      → ((authenticate s host scan lower to_lower bcrypt_hash bcrypt_compare default_cost cost email
            password w).1.db
          ≡ w.db)
        × ((u : UserRow) × (find_row (has_email (normalize_email to_lower email)) w.db.users
              ≡ some u)
            × (bcrypt_compare u.password_hash password ≡ true)
            × (user ≡ public_user_from_fields u))
  authenticate_sound email password w h =
      ok_post (authenticate-Ensures w.db email password) w refl h
