-- ===== src/Users/Tests.antt =====
-- Accounts on a server that never fails, with a transparent hash.
use mlakp_backend.Base.{◌≡◌, refl, subst, ℕ, true, ok, Option, some, none, [], ◌∷◌, some_injective}
use mlakp_backend.Text.{Text, lit, text_eq, trim_space, byte_length, utf8_size, contains_char}
use mlakp_backend.Text.Laws.{text_eq_refl}
use mlakp_backend.Store.{World, UserRow, exec, draw}
use mlakp_backend.Samples.{sample_host, sample_user, steady, scan_first, same_text, small_db}
use mlakp_backend.Sql.Rows.{any_row, find_row}
use mlakp_backend.Sql.Keys.{distinct}
use mlakp_backend.Sql.Users.{create_user, get_user_by_email, all_username_chars, has_email}
use mlakp_backend.Users.{public_user_from_fields, private_user_from_fields}
use mlakp_backend.Users.Validation.{last_index, validate_name, validate_email, validate_username}
use mlakp_backend.Users.Repository as Repository
use mlakp_backend.Users.Service.{hash_password, register, authenticate}
use mlakp_backend.Users.Keys.{HasUserKeys}
use mlakp_backend.Users.Login.{authenticate_sound}
use mlakp_backend.Users.RoundTrip.{register-authenticate}
use mlakp_backend.Users.Steps.{Request, register_user, serve, nothing, then_one, users_unique}

abbrev plain_hash : ℕ → ℕ → Text → Option Text
plain_hash cost salt t = some t

abbrev start : World
start = record { db = record small_db { users = sample_user ∷ [] }; tick = 10; notices = [] }

start-HasUserKeys : HasUserKeys start.db
unfolding distinct any_row
start-HasUserKeys = record { ids = refl; usernames = refl; emails = refl }

abbrev joining : Request
joining = register_user (lit "Ann") (lit "ann") (lit "a@x") (lit "password")

users_unique_example :
    HasUserKeys
      (serve scan_first same_text same_text plain_hash text_eq 10 0 steady sample_host joining
        start).db
users_unique_example =
    users_unique scan_first same_text same_text plain_hash text_eq 10 0 start-HasUserKeys
      (then_one steady sample_host joining nothing)

abbrev after_login : World
after_login =
    (authenticate steady sample_host scan_first same_text same_text plain_hash text_eq 10 0
      (lit "u@x") (lit "pw") start).1

authenticate_sound_example :
    (after_login.db ≡ start.db)
    × ((u : UserRow) × (find_row (has_email (trim_space (lit "u@x"))) start.db.users ≡ some u)
        × (text_eq u.password_hash (lit "pw") ≡ true)
        × (public_user_from_fields sample_user ≡ public_user_from_fields u))
unfolding authenticate validate_email last_index byte_length utf8_size contains_char trim_space
    Repository.get_by_email get_user_by_email exec find_row text_eq private_user_from_fields
authenticate_sound_example =
    authenticate_sound steady sample_host scan_first same_text same_text plain_hash text_eq 10 0
      (lit "u@x") (lit "pw") start refl

abbrev joined : World
joined =
    (register steady sample_host scan_first same_text same_text plain_hash text_eq 10 0 (lit "Ann")
      (lit "ann") (lit "a@x") (lit "password") start).1

abbrev new_row : UserRow
new_row = record {
  id = 11;
  name = lit "Ann";
  username = lit "ann";
  email = lit "a@x";
  password_hash = lit "password";
  email_verified_at = none;
  verification_deadline = some 604800000011;
  created_at = 11;
  updated_at = 11;
}

register-authenticate_example :
    (authenticate steady sample_host scan_first same_text same_text plain_hash text_eq 10 0
      (lit "a@x")
      (lit "password")
      joined).0
    ≡ ok (public_user_from_fields new_row)
unfolding register hash_password draw validate_name validate_username validate_email last_index
    byte_length utf8_size contains_char trim_space all_username_chars Repository.create create_user
    exec any_row text_eq private_user_from_fields
register-authenticate_example =
    register-authenticate steady steady sample_host sample_host scan_first same_text same_text
      plain_hash text_eq 10 0 (lit "Ann") (lit "ann") (lit "a@x") (lit "password") start
      (λ c salt p h e. subst (λ t. text_eq t p ≡ true) (some_injective e) (text_eq_refl p)) refl
      refl
