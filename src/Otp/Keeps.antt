-- ===== src/Otp/Keeps.antt =====
-- The methods of the service of one-time passwords keep the bound on attempts.
use mlakp_backend.Base.{
  ◌≡◌, ap, [], ℕ, zero, suc, ◌+◌, ◌-◌, ◌*◌, ◌%◌, ◌∷◌, Option, none, some, ok, err, Result, Bool,
  leb, ltb, ok_injective, subst, Option-cases, inl, inr,
}
use mlakp_backend.Text.{Text}
use mlakp_backend.Store.{
  Server, Host, Db, Uuid, Time, exec, lift, on_error, pure, attempt, ◌>>=◌, read_clock, draw,
  throw_if,
}
use mlakp_backend.Store.Leads.{
  Leads, bind-Leads, throw-Leads, pure-Leads, guard-Leads, lift-Leads, clock-Leads, exec-Leads,
  then-Leads, on_error-Leads,
}
use mlakp_backend.Sql.Verifications as Sql
use mlakp_backend.Sql.Verifications.{
  NewVerification, is_unverified, latest, count_recent_requests, expire_old_verifications,
  get_active_by_email_and_purpose,
}
use mlakp_backend.Otp.{
  OtpError, otp_not_found, otp_expired, otp_invalid, otp_max_attempts, otp_rate_limited,
  otp_cooldown, email_not_found, invalid_purpose, already_verified, other, Verification,
  CreateParams, Config, minute, second,
}
use mlakp_backend.Otp.Rows.{one_row_ok}
use mlakp_backend.Otp.Repository as Repository
use mlakp_backend.Otp.Repository.{
  any_error, not_found_or_other, optional_argument, scan_verification,
}
use mlakp_backend.Otp.Service as Service
use mlakp_backend.Otp.Service.{is_other_purpose, is_of_other_user}
use mlakp_backend.Otp.Counts.{IsBounded, create-IsBounded, expire_old-IsBounded}
use mlakp_backend.Otp.Attempts.{IsReadFrom, get_active-Ensures, verify-Leads}

module _ {E : Type 0} {P : Db → Type 0} (host : Host) where
  drawn : (e : E) → Leads P P (draw host e)
  unfolding draw
  drawn e = record { at = λ w p. p }

  clock_read : Leads {E = E} P P (read_clock host)
  unfolding read_clock
  clock_read = record { at = λ w p. p }

module _ (uuid_text : Uuid → Text) (text_uuid : Text → Option Uuid)
    (bcrypt_hash : ℕ → Text → Option Text) (bcrypt_compare : Text → Text → Bool)
    (config : Config) where
  abbrev pub Bounded : Db → Type 0
  Bounded = IsBounded config.max_attempts

  module _ (s : Server) (host : Host) where
    generated :
        (k : ℕ)
        → Leads Bounded Bounded
            (Service.generate_digits s host uuid_text text_uuid bcrypt_hash bcrypt_compare config k)
    unfolding Service.generate_digits
    generated zero = pure-Leads (λ db h. h) []
    generated (suc k) =
        then-Leads
          {f = λ num.
            Service.generate_digits s host uuid_text text_uuid bcrypt_hash bcrypt_compare config k
            >>= λ rest. pure ((b'0' + num % 10) ∷ rest)}
          (drawn host other)
          (λ num.
            then-Leads (generated k) (λ rest. pure-Leads (λ db h. h) ((b'0' + num % 10) ∷ rest)))

    otp_drawn :
        Leads Bounded Bounded
          (Service.generate_otp s host uuid_text text_uuid bcrypt_hash bcrypt_compare config)
    unfolding Service.generate_otp
    otp_drawn = generated Service.otp_length

    hashed :
        (otp : Text)
        → Leads Bounded Bounded
            (Service.hash_otp s host uuid_text text_uuid bcrypt_hash bcrypt_compare config otp)
    unfolding Service.hash_otp
    hashed otp =
        then-Leads
          {f = λ salt. lift (elim (bcrypt_hash salt otp) [ none ↦ err other | some h ↦ ok h ])}
          (drawn host other) (λ salt. record { at = λ w p. p })

    stored :
        (params : CreateParams)
        → Leads Bounded Bounded (Repository.create s uuid_text text_uuid params)
    unfolding Repository.create
    stored params =
        lift-Leads (λ db h. h) (optional_argument s uuid_text text_uuid params.user_id)
          (λ user_id known.
            let arg : NewVerification = record {
              user_id = user_id;
              email = params.email;
              purpose = params.purpose;
              otp_hash = params.otp_hash;
              expires_at = params.expires_at;
            } in
            then-Leads {m = on_error any_error (exec s (Sql.create_verification arg))}
              (on_error-Leads any_error (
                exec-Leads s (Sql.create_verification arg) (λ db h. h)
                  (λ id now db r db' v h.
                    create-IsBounded config.max_attempts arg id now db r db' v h)))
              (λ row. pure-Leads (λ db h. h) (scan_verification s uuid_text text_uuid row)))

    expired :
        (email purpose : Text)
        → Leads Bounded Bounded (Repository.expire_old s uuid_text text_uuid email purpose)
    unfolding Repository.expire_old
    expired email purpose = on_error-Leads any_error (
        exec-Leads s (expire_old_verifications email purpose) (λ db h. h)
          (λ id now db u db' v h.
            expire_old-IsBounded config.max_attempts email purpose id now db u db' v h))

    counted :
        (email purpose : Text) (from : Time)
        → Leads Bounded Bounded (Repository.count_recent s uuid_text text_uuid email purpose from)
    unfolding Repository.count_recent count_recent_requests
    counted email purpose from = on_error-Leads any_error (
        exec-Leads s (count_recent_requests email purpose from) (λ db h. h)
          (λ id now db n db' v h. subst Bounded (ap (λ x. x.1) (ok_injective h)) v))

    looked_up :
        (email purpose : Text)
        → Leads Bounded Bounded (Repository.get_active s uuid_text text_uuid email purpose)
    unfolding Repository.get_active get_active_by_email_and_purpose
    looked_up email purpose =
        then-Leads
          {m = on_error not_found_or_other (exec s (get_active_by_email_and_purpose email purpose))}
          (on_error-Leads not_found_or_other (
            exec-Leads s (get_active_by_email_and_purpose email purpose) (λ db h. h)
              (λ id now db r db' v h.
                subst Bounded
                  (one_row_ok (latest (is_unverified email purpose) db.verifications) db h).1 v)))
          (λ row. pure-Leads (λ db h. h) (scan_verification s uuid_text text_uuid row))

    guarded : (test : Bool) (e : OtpError) → Leads Bounded Bounded (throw_if test e)
    guarded test e = record { at = λ w p. p }

    cooled_error :
        (e : OtpError)
        → Leads Bounded Bounded (
            Service.cooldown_result s host uuid_text text_uuid bcrypt_hash bcrypt_compare config
              (err e))
    cooled_error otp_not_found = pure-Leads (λ db h. h) tt
    cooled_error otp_expired = throw-Leads (λ db h. h) otp_expired
    cooled_error otp_invalid = throw-Leads (λ db h. h) otp_invalid
    cooled_error otp_max_attempts = throw-Leads (λ db h. h) otp_max_attempts
    cooled_error otp_rate_limited = throw-Leads (λ db h. h) otp_rate_limited
    cooled_error otp_cooldown = throw-Leads (λ db h. h) otp_cooldown
    cooled_error email_not_found = throw-Leads (λ db h. h) email_not_found
    cooled_error invalid_purpose = throw-Leads (λ db h. h) invalid_purpose
    cooled_error already_verified = throw-Leads (λ db h. h) already_verified
    cooled_error other = throw-Leads (λ db h. h) other

    cooled :
        (r : Result OtpError Verification)
        → Leads Bounded Bounded
            (Service.cooldown_result s host uuid_text text_uuid bcrypt_hash bcrypt_compare config r)
    cooled (err e) = cooled_error e
    cooled (ok v) = elim (Option-cases v.last_request_at) [
      | inl e ↦ rw e (pure-Leads (λ db h. h) tt)
      | inr (last, e) ↦ rw e (
          clock-Leads host
            {rest = λ now.
              throw_if (ltb now (last + config.request_cooldown * second)) otp_cooldown}
            (λ now. guarded (ltb now (last + config.request_cooldown * second)) otp_cooldown))
    ]

    tried :
        (email purpose : Text)
        → Leads {E = OtpError} Bounded Bounded
            (attempt (Repository.get_active s uuid_text text_uuid email purpose))
    tried email purpose = record { at = λ w p. (looked_up email purpose).at w p }

    pub check_cooldown-Leads :
        (email purpose : Text)
        → Leads Bounded Bounded (
            Service.check_cooldown s host uuid_text text_uuid bcrypt_hash bcrypt_compare config
              email purpose)
    unfolding Service.check_cooldown
    check_cooldown-Leads email purpose = then-Leads (tried email purpose) cooled

    pub create-Leads :
        (email purpose : Text) (user_id : Option Text)
        → Leads Bounded Bounded (
            Service.create_verification s host uuid_text text_uuid bcrypt_hash bcrypt_compare config
              email purpose user_id)
    unfolding Service.create_verification
    create-Leads email purpose user_id =
        then-Leads (guarded (is_other_purpose purpose) invalid_purpose) (λ _.
          then-Leads {m = read_clock host} (clock_read host) (λ now.
            then-Leads (counted email purpose (now - config.window_mins * minute)) (λ requests.
              then-Leads (guarded (leb config.requests_per_window requests) otp_rate_limited) (λ _.
                then-Leads (expired email purpose) (λ _. then-Leads otp_drawn (λ otp.
                  then-Leads (hashed otp) (λ otp_hash.
                    then-Leads {m = read_clock host} (clock_read host) (λ later.
                      then-Leads
                        (stored (record {
                          user_id = user_id;
                          email = email;
                          purpose = purpose;
                          otp_hash = otp_hash;
                          expires_at = later + config.expiry_minutes * minute;
                        }))
                        (λ verification. pure-Leads (λ db h. h) (otp, verification))))))))))

  module _ (reads_back : (u : Uuid) → text_uuid (uuid_text u) ≡ some u) (s : Server)
      (host : Host) where
    pub verify_otp-Leads :
        (email purpose otp : Text)
        → Leads Bounded Bounded (
            Service.verify_otp s host uuid_text text_uuid bcrypt_hash bcrypt_compare config email
              purpose otp)
    unfolding Service.verify_otp
    verify_otp-Leads email purpose otp =
        then-Leads (guarded s host (is_other_purpose purpose) invalid_purpose) (λ _.
          bind-Leads
            (λ v db.
              Bounded db
              × IsReadFrom s host uuid_text text_uuid bcrypt_hash bcrypt_compare config reads_back
                  (is_unverified email purpose) v db)
            (λ _. Unit {0}) (looked_up s host email purpose)
            (get_active-Ensures s host uuid_text text_uuid bcrypt_hash bcrypt_compare config
              reads_back email purpose)
            (λ v.
              verify-Leads s host uuid_text text_uuid bcrypt_hash bcrypt_compare config reads_back
                (is_unverified email purpose) v otp))

    pub verify_for_user-Leads :
        (email purpose otp user_id : Text)
        → Leads Bounded Bounded (
            Service.verify_otp_for_user s host uuid_text text_uuid bcrypt_hash bcrypt_compare config
              email purpose otp user_id)
    unfolding Service.verify_otp_for_user
    verify_for_user-Leads email purpose otp user_id =
        then-Leads (guarded s host (is_other_purpose purpose) invalid_purpose) (λ _.
          bind-Leads
            (λ v db.
              Bounded db
              × IsReadFrom s host uuid_text text_uuid bcrypt_hash bcrypt_compare config reads_back
                  (is_unverified email purpose) v db)
            (λ _. Unit {0}) (looked_up s host email purpose)
            (get_active-Ensures s host uuid_text text_uuid bcrypt_hash bcrypt_compare config
              reads_back email purpose)
            (λ v.
              guard-Leads (λ db h. h.0) (is_of_other_user v.user_id user_id) otp_not_found
                (λ _.
                  Service.verify s host uuid_text text_uuid bcrypt_hash bcrypt_compare config v otp)
                (λ _.
                  verify-Leads s host uuid_text text_uuid bcrypt_hash bcrypt_compare config
                    reads_back (is_unverified email purpose) v otp)))
