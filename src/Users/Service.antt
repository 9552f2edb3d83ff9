-- ===== src/Users/Service.antt =====
-- internal/users/service.go, with the hasher of internal/auth/password.go. `bcrypt_hash` is
-- `bcrypt.GenerateFromPassword` at a cost and a salt, `bcrypt_compare` says whether
-- `bcrypt.CompareHashAndPassword` finds no difference, `default_cost` is its constant `DefaultCost`;
-- they belong to golang.org/x/crypto.
use mlakp_backend.Base.{
  ℕ, ◌-◌, ◌*◌, ◌/◌, Bool, true, false, not, Option, none, some, Result, ok, err, leb, ◌==◌,
  if◌then◌else◌,
}
use mlakp_backend.Text.{Text, trim_space, is_empty, lit}
use mlakp_backend.Store.{Server, Host, Action, Uuid, Time, draw, pure, throw_if, lift, ◌>>=◌, ◌>>◌}
use mlakp_backend.Users.{UserError, not_found, other, User, PrivateUser, VerificationStatus}
use mlakp_backend.Users.Validation.{
  validate_name, validate_username, validate_email, validate_password, normalize_username,
  normalize_email,
}
use mlakp_backend.Users.Repository as Repository

-- `validateEmail`, any error of which counts as an unknown user.
abbrev pub or_not_found : Result UserError (Unit {0}) → Result UserError (Unit {0})
or_not_found (ok tt) = ok tt
or_not_found (err e) = err not_found

abbrev pub day : ℕ
day = 24 * (3600 * 1000000)

-- The days that remain, the division in floating point taken as exact, and the status.
abbrev pub deadline_status : Time → Time → VerificationStatus
deadline_status now deadline = record {
  is_verified = false;
  days_remaining = (deadline - now) / day;
  deadline = some deadline;
  status = if leb deadline now then lit "expired" else lit "pending_grace_period";
}

abbrev pub unverified_status : Time → Option Time → VerificationStatus
unverified_status now none = record {
  is_verified = false;
  days_remaining = 0;
  deadline = none;
  status = lit "pending";
}
unverified_status now (some deadline) = deadline_status now deadline

-- `GetVerificationStatus`, at a reading of the clock.
unfoldable pub get_verification_status : Time → User → VerificationStatus
get_verification_status now user = elim user.email_verified_at [
  | some t ↦ record {
    is_verified = true;
    days_remaining = 0;
    deadline = none;
    status = lit "verified";
  }
  | none ↦ unverified_status now user.verification_deadline
]

module _ (s : Server) (host : Host) (scan : Text → Option Uuid) (lower : Text → Text)
    (to_lower : Text → Text) (bcrypt_hash : ℕ → ℕ → Text → Option Text)
    (bcrypt_compare : Text → Text → Bool) (default_cost cost : ℕ) where
  -- `HashPassword`
  unfoldable pub hash_password : Text → Action UserError Text
  hash_password password = do
    salt ← draw host other
    lift (elim (bcrypt_hash (if cost == 0 then default_cost else cost) salt password) [
      | none ↦ err other
      | some h ↦ ok h
    ])

  -- `Register`
  unfoldable pub register : Text → Text → Text → Text → Action UserError User
  register name username email password = do
    lift (validate_name (trim_space name))
    lift (validate_username (normalize_username to_lower username))
    lift (validate_email (normalize_email to_lower email))
    lift (validate_password password)
    password_hash ← hash_password password
    user ←
        Repository.create s scan lower (trim_space name) (normalize_username to_lower username)
          (normalize_email to_lower email) password_hash
    pure user.user

  -- `Authenticate`
  unfoldable pub authenticate : Text → Text → Action UserError User
  authenticate email password = do
    lift (or_not_found (validate_email (normalize_email to_lower email)))
    user ← Repository.get_by_email s scan lower (normalize_email to_lower email)
    throw_if (not (bcrypt_compare user.password_hash password)) not_found
    pure user.user

  -- `GetByUsername`
  unfoldable pub get_by_username : Text → Action UserError User
  get_by_username username = do
    lift (validate_username (normalize_username to_lower username))
    Repository.get_by_username s scan lower (normalize_username to_lower username)

  -- `UpdateUsername`
  unfoldable pub update_username : Text → Text → Action UserError User
  update_username id username = do
    throw_if (is_empty (trim_space id)) not_found
    lift (validate_username (normalize_username to_lower username))
    Repository.update_username s scan lower id (normalize_username to_lower username)

  -- `UpdatePassword`
  unfoldable pub update_password : Text → Text → Action UserError (Unit {0})
  update_password user_id password = do
    lift (validate_password password)
    password_hash ← hash_password password
    Repository.update_password s scan lower user_id password_hash

  -- `GetByEmail`, `GetByID`, `MarkEmailVerified` and `RevokeAllUserSessions`
  abbrev pub get_by_email : Text → Action UserError PrivateUser
  get_by_email email = Repository.get_by_email s scan lower email

  abbrev pub get_by_id : Text → Action UserError User
  get_by_id id = Repository.get_by_id s scan lower id

  abbrev pub mark_email_verified : Text → Action UserError User
  mark_email_verified user_id = Repository.mark_email_verified s scan lower user_id

  abbrev pub revoke_all_user_sessions : Text → Action UserError (Unit {0})
  revoke_all_user_sessions user_id = Repository.revoke_all_sessions s scan lower user_id
