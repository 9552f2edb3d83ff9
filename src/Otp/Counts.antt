-- ===== src/Otp/Counts.antt =====
-- The counts of attempts, against the statements on the table.
use mlakp_backend.Base.{
  ◌≡◌, refl, sym, ap, ℕ, Bool, true, false, ◌&&◌, ◌||◌, ok, ltb, leb, ◌==◌, arith, Bool-cases,
  Option-cases, inl, inr, ok_injective,
}
use mlakp_backend.Text.{Text}
use mlakp_backend.Store.{Db, Uuid, Time, VerificationRow}
use mlakp_backend.Sql.Rows.{find_row, update_rows, any_row}
use mlakp_backend.Sql.Keys.{
  distinct, distinct-update_rows, any_row_weaken, any_row-or, update_rows-settles, update_rows-none,
}
use mlakp_backend.Sql.Verifications as Sql
use mlakp_backend.Sql.Verifications.{
  verification_has_id, is_unverified, latest, attempted, verified_row, expired_row, is_pending_at,
  increment_attempt, get_active_by_email_and_purpose, expire_old_verifications,
}
use mlakp_backend.Otp.Rows.{same_verification, disagrees, IsRowOf}

-- Ids are keys, and no verification has more attempts than the limit.
pub record IsBounded (most : ℕ) (db : Db) : Type 0 where
  pub keys : distinct same_verification db.verifications ≡ true
  pub within : any_row (λ r. ltb most r.attempt_count) db.verifications ≡ false

-- The row with the id has attempts left.
pub record HasAttempts (most : ℕ) (id : Uuid) (db : Db) : Type 0 where
  pub bounded : IsBounded most db
  pub left : any_row (λ r. r.id == id && leb most r.attempt_count) db.verifications ≡ false

updated-IsBounded :
    (most : ℕ) (p : VerificationRow → Bool) (f : VerificationRow → VerificationRow) (db db' : Db)
    → ((r : VerificationRow) → (f r).id ≡ r.id)
    → ((r : VerificationRow) → (f r).attempt_count ≡ r.attempt_count)
    → IsBounded most db
    → db'.verifications ≡ update_rows p f db.verifications
    → IsBounded most db'
updated-IsBounded most p f db db' ids counts v e = record {
  keys = rw e (
      distinct-update_rows same_verification p f db.verifications (λ r x. rw (ids x) refl)
        (λ r x. rw (ids r) refl) v.keys);
  within = rw e (
      update_rows-none (λ r. ltb most r.attempt_count) p f db.verifications v.within
        (λ r h. rw (counts r) h));
}

pub mark_verified-IsBounded :
    (most : ℕ) (verification_id id : Uuid) (now : Time) (db : Db) (u : Unit {0}) (db' : Db)
    → IsBounded most db
    → Sql.mark_verified verification_id id now db ≡ ok (u, db')
    → IsBounded most db'
unfolding Sql.mark_verified
mark_verified-IsBounded most verification_id id now db u db' v h =
    updated-IsBounded most (verification_has_id verification_id) (verified_row now) db db'
      (λ r. refl) (λ r. refl) v (sym (ap (λ x. x.1.verifications) (ok_injective h)))

pub expire_old-IsBounded :
    (most : ℕ) (email purpose : Text) (id : Uuid) (now : Time) (db : Db) (u : Unit {0}) (db' : Db)
    → IsBounded most db
    → expire_old_verifications email purpose id now db ≡ ok (u, db')
    → IsBounded most db'
unfolding expire_old_verifications
expire_old-IsBounded most email purpose id now db u db' v h =
    elim (Bool-cases
      (any_row (λ r. is_pending_at email purpose now r && leb now r.created_at) db.verifications)) [
        | inl e ↦ let no = rw e at h in absurd (cc)
        | inr e ↦
            updated-IsBounded most (is_pending_at email purpose now) (expired_row now) db db'
              (λ r. refl) (λ r. refl) v
              (sym (ap (λ x. x.1.verifications) (ok_injective (rw e at h))))
      ]

pub create-IsBounded :
    (most : ℕ) (arg : Sql.NewVerification) (id : Uuid) (now : Time) (db : Db) (r : VerificationRow)
    (db' : Db)
    → IsBounded most db
    → Sql.create_verification arg id now db ≡ ok (r, db')
    → IsBounded most db'
unfolding Sql.create_verification distinct any_row
create-IsBounded most arg id now db r db' v h =
    elim (Bool-cases (Sql.is_purpose arg.purpose && ltb now arg.expires_at)) [
      | inr a ↦ let no = rw a at h in absurd (cc)
      | inl a ↦ elim (Bool-cases (any_row (verification_has_id id) db.verifications)) [
        | inl b ↦ let no = rw (a, b) at h in absurd (cc)
        | inr b ↦ elim (Bool-cases (Sql.user_is_known arg.user_id db)) [
          | inr c ↦ let no = rw (a, b, c) at h in absurd (cc)
          | inl c ↦
              let table = sym (ap (λ x. x.1.verifications) (ok_injective (rw (a, b, c) at h))) in
              let keys = v.keys in
              let within = v.within in
              record { keys = rw (table, b, keys) refl; within = rw (table, within) (ground arith) }
        ]
      ]
    ]

pub increment-IsBounded :
    (most : ℕ) (verification_id id : Uuid) (now : Time) (db : Db) (r : VerificationRow) (db' : Db)
    → HasAttempts most verification_id db
    → increment_attempt verification_id id now db ≡ ok (r, db')
    → IsBounded most db'
unfolding increment_attempt
increment-IsBounded most verification_id id now db r db' v h =
    elim (Option-cases (find_row (verification_has_id verification_id) db.verifications)) [
      | inl e ↦ let no = rw (e, increment_attempt) at h in absurd (cc)
      | inr (x, e) ↦
          let table : db'.verifications
              ≡ update_rows (verification_has_id verification_id) attempted db.verifications =
            sym (ap (λ y. y.1.verifications) (ok_injective (rw (e, increment_attempt) at h))) in
          record {
            keys = rw table (
                distinct-update_rows same_verification (verification_has_id verification_id)
                  attempted db.verifications (λ r x. refl) (λ r x. refl) v.bounded.keys);
            within = rw table (
                update_rows-settles
                  (λ r.
                    ltb most r.attempt_count || r.id == verification_id && leb most r.attempt_count)
                  (λ r. ltb most r.attempt_count) (verification_has_id verification_id) attempted
                  db.verifications
                  (any_row-or (λ r. ltb most r.attempt_count)
                    (λ r. r.id == verification_id && leb most r.attempt_count) db.verifications
                    v.bounded.within v.left)
                  (λ r fine e. ground arith) (λ r fine e. ground arith));
          }
    ]

-- A row below the limit leaves its id with attempts.
pub row-HasAttempts :
    (most : ℕ) (p : VerificationRow → Bool) (db : Db) (r : VerificationRow)
    → IsBounded most db
    → IsRowOf p db.verifications r
    → leb most r.attempt_count ≡ false
    → HasAttempts most r.id db
row-HasAttempts most p db r v row low = record {
  bounded = v;
  left =
      any_row_weaken (λ x. x.id == r.id && leb most x.attempt_count) (disagrees r) db.verifications
        row.alone (λ x h. ground arith);
}
