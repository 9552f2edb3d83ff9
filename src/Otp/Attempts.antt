-- ===== src/Otp/Attempts.antt =====
-- The number of attempts of each verification, over the methods of the service.
use mlakp_backend.Base.{
  ◌≡◌, refl, sym, subst, ℕ, Bool, false, Option, some, ok, ltb, leb, arith, Bool-cases, inl, inr,
}
use mlakp_backend.Text.{Text}
use mlakp_backend.Store.{
  Server, Host, Db, Uuid, VerificationRow, exec, on_error, throw, throw_if, ◌>>=◌,
}
use mlakp_backend.Store.Spec.{Ensures, by_pure, by_bind, by_on_error, by_exec}
use mlakp_backend.Store.Leads.{
  Leads, throw-Leads, pure-Leads, guard-Leads, lift-Leads, clock-Leads, exec-Leads, then-Leads,
  on_error-Leads,
}
use mlakp_backend.Sql.Verifications as Sql
use mlakp_backend.Sql.Verifications.{
  verification_has_id, is_unverified, latest, attempted, verified_row, expired_row, is_pending_at,
  increment_attempt, get_active_by_email_and_purpose, expire_old_verifications,
}
use mlakp_backend.Otp.{Verification, Config, otp_expired, otp_max_attempts, otp_invalid}
use mlakp_backend.Otp.Rows.{IsRowOf, latest-IsRowOf, one_row_ok}
use mlakp_backend.Otp.Repository as Repository
use mlakp_backend.Otp.Repository.{any_error, not_found_or_other, scan_verification, uuid_argument}
use mlakp_backend.Otp.Service as Service
use mlakp_backend.Otp.Counts.{
  IsBounded, HasAttempts, mark_verified-IsBounded, increment-IsBounded, row-HasAttempts,
}

module _ (s : Server) (host : Host) (uuid_text : Uuid → Text) (text_uuid : Text → Option Uuid)
    (bcrypt_hash : ℕ → Text → Option Text) (bcrypt_compare : Text → Text → Bool) (config : Config)
    (reads_back : (u : Uuid) → text_uuid (uuid_text u) ≡ some u) where
  abbrev Bounded : Db → Type 0
  Bounded = IsBounded config.max_attempts

  -- The verification was read from a row that fits the test.
  abbrev pub IsReadFrom : (VerificationRow → Bool) → Verification → Db → Type 0
  IsReadFrom p v db =
      (r : VerificationRow) × (v ≡ scan_verification s uuid_text text_uuid r)
      × IsRowOf p db.verifications r

  pub get_active-Ensures :
      (email purpose : Text)
      → Ensures Bounded
          (Repository.get_active s uuid_text text_uuid email purpose)
          (λ v db. Bounded db × IsReadFrom (is_unverified email purpose) v db)
          (λ _. Unit {0})
  unfolding Repository.get_active get_active_by_email_and_purpose
  get_active-Ensures email purpose =
      by_bind {Q = λ r db. Bounded db × IsRowOf (is_unverified email purpose) db.verifications r}
        {m = on_error not_found_or_other (exec s (get_active_by_email_and_purpose email purpose))}
        (by_on_error not_found_or_other (
          by_exec s (get_active_by_email_and_purpose email purpose) tt
            (λ id now db r db' v h.
              let (found, same) =
                one_row_ok (latest (is_unverified email purpose) db.verifications) db h in
              subst (λ d. Bounded d × IsRowOf (is_unverified email purpose) d.verifications r) same
                (v, latest-IsRowOf (is_unverified email purpose) db.verifications v.keys found))
            (λ _ _ _ _ _ _. tt)))
        (λ r. by_pure _ (λ db (v, row). (v, (r, refl, row))))

  -- The id of a verification reads back as that of its row.
  argument_id :
      (v : Verification) (r : VerificationRow) (u : Uuid)
      → v ≡ scan_verification s uuid_text text_uuid r
      → uuid_argument s uuid_text text_uuid v.id ≡ ok u
      → r.id ≡ u
  unfolding scan_verification
  argument_id v r u read h =
      let known : text_uuid v.id ≡ some r.id =
        subst (λ x. text_uuid x.id ≡ some r.id) (sym read) (reads_back r.id) in
      ground (arith, known, h)

  increment-Leads :
      (p : VerificationRow → Bool) (v : Verification)
      → leb config.max_attempts v.attempt_count ≡ false
      → Leads
          (λ db. Bounded db × IsReadFrom p v db)
          Bounded
          (Repository.increment s uuid_text text_uuid v.id)
  unfolding Repository.increment scan_verification
  increment-Leads p v low =
      lift-Leads (λ db h. h.0) (uuid_argument s uuid_text text_uuid v.id)
        (λ u known.
          then-Leads {m = on_error any_error (exec s (increment_attempt u))}
            (on_error-Leads any_error (
              exec-Leads s (increment_attempt u) (λ db h. h.0)
                (λ id now db x db' (b, (r, read, row)) h.
                  let same = argument_id v r u read known in
                  let few : leb config.max_attempts r.attempt_count ≡ false =
                    subst (λ x. leb config.max_attempts x.attempt_count ≡ false) read low in
                  increment-IsBounded config.max_attempts u id now db x db'
                    (subst (λ y. HasAttempts config.max_attempts y db) same
                      (row-HasAttempts config.max_attempts p db r b row few))
                    h)))
            (λ row. pure-Leads (λ db h. h) (scan_verification s uuid_text text_uuid row)))

  count_attempt-Leads :
      (p : VerificationRow → Bool) (v : Verification)
      → leb config.max_attempts v.attempt_count ≡ false
      → Leads
          (λ db. Bounded db × IsReadFrom p v db)
          Bounded
          (Service.count_attempt s host uuid_text text_uuid bcrypt_hash bcrypt_compare config v)
  unfolding Service.count_attempt
  count_attempt-Leads p v low = then-Leads (increment-Leads p v low) (λ updated.
      guard-Leads (λ db h. h) (leb config.max_attempts updated.attempt_count) otp_max_attempts
        (λ _. throw {A = Verification} otp_invalid) (λ _. throw-Leads (λ db h. h) otp_invalid))

  accept_otp-Leads :
      (p : VerificationRow → Bool) (v : Verification)
      → Leads
          (λ db. Bounded db × IsReadFrom p v db)
          Bounded
          (Service.accept_otp s host uuid_text text_uuid bcrypt_hash bcrypt_compare config v)
  unfolding Service.accept_otp Repository.mark_verified
  accept_otp-Leads p v =
      then-Leads
        (lift-Leads (λ db h. h.0) (uuid_argument s uuid_text text_uuid v.id)
          (λ u known. on_error-Leads any_error (
            exec-Leads s (Sql.mark_verified u) (λ db h. h.0)
              (λ id now db x db' (b, row) h.
                mark_verified-IsBounded config.max_attempts u id now db x db' b h))))
        (λ _.
          clock-Leads host (λ now. pure-Leads (λ db h. h) (record v { verified_at = some now })))

  pub verify-Leads :
      (p : VerificationRow → Bool) (v : Verification) (otp : Text)
      → Leads
          (λ db. Bounded db × IsReadFrom p v db)
          Bounded
          (Service.verify s host uuid_text text_uuid bcrypt_hash bcrypt_compare config v otp)
  unfolding Service.verify Service.check_otp
  verify-Leads p v otp = clock-Leads host (λ now.
      guard-Leads (λ db h. h.0) (ltb v.expires_at now) otp_expired
        (λ _. throw_if (leb config.max_attempts v.attempt_count) otp_max_attempts >>= λ _.
          Service.check_otp s host uuid_text text_uuid bcrypt_hash bcrypt_compare config v otp)
        (λ _.
          guard-Leads (λ db h. h.0) (leb config.max_attempts v.attempt_count) otp_max_attempts
            (λ _.
              Service.check_otp s host uuid_text text_uuid bcrypt_hash bcrypt_compare config v otp)
            (λ low. elim (Bool-cases (bcrypt_compare v.otp_hash otp)) [
              | inl e ↦ rw e (accept_otp-Leads p v)
              | inr e ↦ rw e (count_attempt-Leads p v low)
            ])))
