-- ===== src/Otp/Sound.antt =====
-- What an accepted one-time password stands for.
use mlakp_backend.Base.{
  ◌≡◌, refl, sym, ap, subst, ℕ, Bool, true, false, ◌&&◌, Option, some, ok, err, Result, ltb, leb,
  arith, Bool-cases, inl, inr, ok_injective, ◌∙◌,
}
use mlakp_backend.Text.{Text}
use mlakp_backend.Store.{
  Server, Host, World, Action, Db, Uuid, Time, VerificationRow, exec, on_error,
}
use mlakp_backend.Store.Spec.{
  Post, Ensures, by_pure, by_throw, by_lift, by_throw_if, by_bind, by_on_error, by_exec, weaken,
  strengthen, by_fact,
}
use mlakp_backend.Store.Outside.{by_read_clock, by_clock_shows, ok_post}
use mlakp_backend.Sql.Rows.{any_row}
use mlakp_backend.Sql.Keys.{update_rows-settles, any_row_never}
use mlakp_backend.Sql.Verifications as Sql
use mlakp_backend.Sql.Verifications.{
  is_unverified, verification_has_id, verified_row, latest, get_active_by_email_and_purpose,
}
use mlakp_backend.Sql.Sessions.{is_null}
use mlakp_backend.Otp.{
  Verification, Config, otp_expired, otp_max_attempts, otp_invalid, invalid_purpose,
}
use mlakp_backend.Otp.Rows.{one_row_ok}
use mlakp_backend.Otp.Repository as Repository
use mlakp_backend.Otp.Repository.{any_error, not_found_or_other, scan_verification, uuid_argument}
use mlakp_backend.Otp.Service as Service
use mlakp_backend.Otp.Service.{is_other_purpose}

-- The row of the table, before the call, that the password was checked against: the newest one for
-- the address and the purpose that is not yet verified. Its hash fits the password, it had not
-- expired at some reading of the clock, and it had attempts left; afterwards no row with its id is
-- unverified.
pub record Accepted (before after : Db) (host : Host) (compare_hash : Text → Text → Bool) (most : ℕ)
    (email purpose otp : Text) (r : VerificationRow) : Type 0 where
  pub newest : latest (is_unverified email purpose) before.verifications ≡ some r
  pub matches : compare_hash r.otp_hash otp ≡ true
  pub tick : ℕ
  pub in_time : ltb r.expires_at (host.clock tick) ≡ false
  pub attempts_left : leb most r.attempt_count ≡ false
  pub closed :
      any_row (λ x. verification_has_id r.id x && is_null x.verified_at) after.verifications ≡ false

mark_verified-Closes :
    (u id : Uuid) (now : Time) (db : Db) (x : Unit {0}) (db' : Db)
    → Sql.mark_verified u id now db ≡ ok (x, db')
    → any_row (λ r. verification_has_id u r && is_null r.verified_at) db'.verifications ≡ false
unfolding Sql.mark_verified
mark_verified-Closes u id now db x db' h =
    let table = sym (ap (λ y. y.1.verifications) (ok_injective h)) in
    rw table (
      update_rows-settles (λ r. false) (λ r. verification_has_id u r && is_null r.verified_at)
        (verification_has_id u) (verified_row now) db.verifications (any_row_never db.verifications)
        (λ r _ e. ground arith) (λ r _ e. ground arith))

anything-Post :
    {E A : Type 0} (r : Result E A) (w : World) → Post (λ _ _. Unit {0}) (λ _. Unit {0}) (r, w)
anything-Post (ok a) w = tt
anything-Post (err e) w = tt

anything :
    {E A : Type 0} {P : Db → Type 0} (m : Action E A)
    → Ensures P m (λ _ _. Unit {0}) (λ _. Unit {0})
anything m = record { holds = λ w p. anything-Post (m w).0 (m w).1 }

module _ (s : Server) (host : Host) (uuid_text : Uuid → Text) (text_uuid : Text → Option Uuid)
    (bcrypt_hash : ℕ → Text → Option Text) (bcrypt_compare : Text → Text → Bool) (config : Config)
    (reads_back : (u : Uuid) → text_uuid (uuid_text u) ≡ some u) where
  Closes : VerificationRow → Db → Type 0
  Closes r db =
      any_row (λ x. verification_has_id r.id x && is_null x.verified_at) db.verifications ≡ false

  argument_known :
      (r : VerificationRow) → uuid_argument s uuid_text text_uuid (uuid_text r.id) ≡ ok r.id
  argument_known r = let known = reads_back r.id in ground arith

  mark-Ensures :
      {P : Db → Type 0} (r : VerificationRow)
      → Ensures P
          (Repository.mark_verified s uuid_text text_uuid
            (scan_verification s uuid_text text_uuid r).id)
          (λ _ db. Closes r db)
          (λ _. Unit {0})
  unfolding Repository.mark_verified scan_verification Closes
  mark-Ensures {P} r =
      by_bind (by_lift (uuid_argument s uuid_text text_uuid (uuid_text r.id)) (λ _ _. tt)) (λ u.
        by_fact (uuid_argument s uuid_text text_uuid (uuid_text r.id) ≡ ok u) (λ db p. p.0)
          (λ known.
            let same : r.id ≡ u = ok_injective (sym (argument_known r) ∙ known) in
            by_on_error any_error (
              by_exec s (Sql.mark_verified u) tt
                (λ id now db x db' _ h.
                  subst
                    (λ y.
                      any_row (λ x. verification_has_id y x && is_null x.verified_at)
                        db'.verifications
                      ≡ false)
                    (sym same) (mark_verified-Closes u id now db x db' h))
                (λ _ _ _ _ _ _. tt))))

  -- What `verify` makes sure of before it accepts.
  record Checked (otp : Text) (r : VerificationRow) (db : Db) : Type 0 where
    pub matches : bcrypt_compare r.otp_hash otp ≡ true
    pub tick : ℕ
    pub in_time : ltb r.expires_at (host.clock tick) ≡ false
    pub attempts_left : leb config.max_attempts r.attempt_count ≡ false
    pub closed : Closes r db

  accept-Ensures :
      {P : Db → Type 0} (r : VerificationRow)
      → Ensures P
          (Service.accept_otp s host uuid_text text_uuid bcrypt_hash bcrypt_compare config
            (scan_verification s uuid_text text_uuid r))
          (λ _ db. Closes r db)
          (λ _. Unit {0})
  unfolding Service.accept_otp
  accept-Ensures r =
      let v = scan_verification s uuid_text text_uuid r in
      by_bind (mark-Ensures r) (λ _.
        by_bind (by_read_clock host)
          (λ now. by_pure (record v { verified_at = some now }) (λ db h. h)))

  refuse-Ensures :
      {P : Db → Type 0} (v : Verification)
      → Ensures P
          (Service.count_attempt s host uuid_text text_uuid bcrypt_hash bcrypt_compare config v)
          (λ _ _. ⊥)
          (λ _. Unit {0})
  unfolding Service.count_attempt
  refuse-Ensures {P} v =
      by_bind {Q = λ _ _. Unit {0}} (anything (Repository.increment s uuid_text text_uuid v.id))
        (λ updated.
          by_bind
            (by_throw_if (leb config.max_attempts updated.attempt_count) otp_max_attempts
              (λ _ _ _. tt))
            (λ _. by_throw otp_invalid (λ _ _. tt)))

  check-Ensures :
      {P : Db → Type 0} (r : VerificationRow) (otp : Text)
      → Ensures P
          (Service.check_otp s host uuid_text text_uuid bcrypt_hash bcrypt_compare config
            (scan_verification s uuid_text text_uuid r)
            otp)
          (λ _ db. (bcrypt_compare r.otp_hash otp ≡ true) × Closes r db)
          (λ _. Unit {0})
  unfolding Service.check_otp scan_verification
  check-Ensures r otp = elim (Bool-cases (bcrypt_compare r.otp_hash otp)) [
    | inl e ↦ rw e (strengthen (λ v db c. (refl, c)) (accept-Ensures r))
    | inr e ↦ rw e (
        strengthen (λ v db no. absurd no)
          (refuse-Ensures (scan_verification s uuid_text text_uuid r)))
  ]

  verify-Ensures :
      {P : Db → Type 0} (r : VerificationRow) (otp : Text)
      → Ensures P
          (Service.verify s host uuid_text text_uuid bcrypt_hash bcrypt_compare config
            (scan_verification s uuid_text text_uuid r)
            otp)
          (λ _ db. Checked otp r db)
          (λ _. Unit {0})
  unfolding Service.verify scan_verification
  verify-Ensures {P} r otp = by_bind (by_clock_shows host) (λ now.
      by_bind (by_throw_if (ltb r.expires_at now) otp_expired (λ _ _ _. tt)) (λ _.
        by_bind
          (by_throw_if (leb config.max_attempts r.attempt_count) otp_max_attempts (λ _ _ _. tt))
          (λ _.
            by_fact
              (((k : ℕ) × (host.clock k ≡ now))
                × (ltb r.expires_at now ≡ false)
                × (leb config.max_attempts r.attempt_count ≡ false))
              (λ db p. (p.0.0.1, p.0.1, p.1))
              (λ ((k, shown), in_time, low).
                strengthen
                  (λ v db (matches, closed). record {
                    matches = matches;
                    tick = k;
                    in_time = rw shown in_time;
                    attempts_left = low;
                    closed = closed;
                  })
                  (check-Ensures r otp)))))

  read-Ensures :
      (before : Db) (email purpose : Text)
      → Ensures
          (λ db. db ≡ before)
          (Repository.get_active s uuid_text text_uuid email purpose)
          (λ v db.
            (r : VerificationRow) × (v ≡ scan_verification s uuid_text text_uuid r)
            × (latest (is_unverified email purpose) before.verifications ≡ some r))
          (λ _. Unit {0})
  unfolding Repository.get_active get_active_by_email_and_purpose
  read-Ensures before email purpose =
      by_bind {Q = λ r db. latest (is_unverified email purpose) before.verifications ≡ some r}
        {m = on_error not_found_or_other (exec s (get_active_by_email_and_purpose email purpose))}
        (by_on_error not_found_or_other (
          by_exec s (get_active_by_email_and_purpose email purpose) tt
            (λ id now db r db' same h.
              let found =
                (one_row_ok (latest (is_unverified email purpose) db.verifications) db h).0 in
              subst (λ d. latest (is_unverified email purpose) d.verifications ≡ some r) same found)
            (λ _ _ _ _ _ _. tt)))
        (λ r. by_pure _ (λ db found. (r, refl, found)))

  verified-Ensures :
      (before : Db) (email purpose otp : Text)
      → Ensures
          (λ db. db ≡ before)
          (Service.verify_otp s host uuid_text text_uuid bcrypt_hash bcrypt_compare config email
            purpose otp)
          (λ _ db.
            (r : VerificationRow) × Accepted before db host bcrypt_compare config.max_attempts email
              purpose otp r)
          (λ _. Unit {0})
  unfolding Service.verify_otp Closes
  verified-Ensures before email purpose otp =
      by_bind (by_throw_if (is_other_purpose purpose) invalid_purpose (λ _ _ _. tt)) (λ _.
        by_bind (weaken (λ db p. p.0) (read-Ensures before email purpose)) (λ v.
          by_fact
            ((r : VerificationRow) × (v ≡ scan_verification s uuid_text text_uuid r)
              × (latest (is_unverified email purpose) before.verifications ≡ some r))
            (λ db p. p)
            (λ (r, read, newest).
              subst
                (λ x.
                  Ensures
                    (λ db.
                      (y : VerificationRow) × (x ≡ scan_verification s uuid_text text_uuid y)
                      × (latest (is_unverified email purpose) before.verifications ≡ some y))
                    (Service.verify s host uuid_text text_uuid bcrypt_hash bcrypt_compare config x
                      otp)
                    (λ _ db.
                      (y : VerificationRow) × Accepted before db host bcrypt_compare
                        config.max_attempts email purpose otp y)
                    (λ _. Unit {0}))
                (sym read)
                (strengthen
                  (λ _ db c. (
                    r,
                    record {
                      newest = newest;
                      matches = c.matches;
                      tick = c.tick;
                      in_time = c.in_time;
                      attempts_left = c.attempts_left;
                      closed = c.closed;
                    },
                  ))
                  (verify-Ensures r otp)))))

  -- A one-time password is accepted only if it fits the hash of the newest unverified row for the
  -- address and the purpose, some reading of the clock is not after the expiry of that row, and the
  -- row has attempts left; afterwards no row with its id is unverified. The ids that the driver
  -- gives out as texts are taken to read back.
  pub verify_otp_sound :
      (email purpose otp : Text) (w : World) {v : Verification}
      → (Service.verify_otp s host uuid_text text_uuid bcrypt_hash bcrypt_compare config email
          purpose otp w).0
        ≡ ok v
      → (r : VerificationRow) × Accepted w.db
          (Service.verify_otp s host uuid_text text_uuid bcrypt_hash bcrypt_compare config email
            purpose otp w).1.db
          host
          bcrypt_compare
          config.max_attempts
          email
          purpose
          otp
          r
  verify_otp_sound email purpose otp w h =
      ok_post (verified-Ensures w.db email purpose otp) w refl h
