-- ===== src/Otp/Rows.antt =====
-- The row that a verification was read from.
use mlakp_backend.Base.{
  ◌≡◌, refl, ap, subst, Bool, true, false, not, ◌&&◌, Option, none, some, List, [], ◌∷◌, ok, ltb,
  ◌==◌, arith, Bool-cases, Option-cases, inl, inr, ok_injective, ==_self, ==→eq, some_injective,
}
use mlakp_backend.Store.{Db, VerificationRow}
use mlakp_backend.Sql.Rows.{any_row}
use mlakp_backend.Sql.Keys.{distinct, any_row_weaken}
use mlakp_backend.Sql.Debts.{one_row}
use mlakp_backend.Sql.Verifications.{verification_has_id, latest}

-- `PRIMARY KEY`
abbrev pub same_verification : VerificationRow → VerificationRow → Bool
same_verification r x = x.id == r.id

-- Another number of attempts under the same id.
abbrev pub disagrees : VerificationRow → VerificationRow → Bool
disagrees r x = x.id == r.id && not (x.attempt_count == r.attempt_count)

-- The row stands in the table, it fits the test, and its id leads to nothing else.
pub record IsRowOf (p : VerificationRow → Bool) (rows : List VerificationRow) (r : VerificationRow)
    : Type 0 where
  pub fits : p r ≡ true
  pub present : any_row (verification_has_id r.id) rows ≡ true
  pub alone : any_row (disagrees r) rows ≡ false

head-IsRowOf :
    (p : VerificationRow → Bool) (r : VerificationRow) (rows : List VerificationRow)
    → p r ≡ true
    → any_row (same_verification r) rows ≡ false
    → IsRowOf p (r ∷ rows) r
unfolding any_row
head-IsRowOf p r rows e fresh =
    let rest =
      any_row_weaken (disagrees r) (same_verification r) rows fresh (λ x h. ground arith) in
    record {
      fits = e;
      present = rw (==_self r.id) refl;
      alone = rw (rest, ==_self r.id, ==_self r.attempt_count) refl;
    }

tail-IsRowOf :
    (p : VerificationRow → Bool) (x r : VerificationRow) (rows : List VerificationRow)
    → any_row (same_verification x) rows ≡ false
    → IsRowOf p rows r
    → IsRowOf p (x ∷ rows) r
unfolding any_row
tail-IsRowOf p x r rows fresh v = elim (Bool-cases (x.id == r.id)) [
  | inl e ↦
      let same : x.id ≡ r.id = ==→eq x.id r.id e in
      let there = v.present in
      let gone : any_row (verification_has_id r.id) rows ≡ false = rw same at fresh in absurd (cc)
  | inr e ↦
      let there = v.present in
      let alone = v.alone in
      record { fits = v.fits; present = rw (e, there) refl; alone = rw (e, alone) refl }
]

-- The latest row is one of the table.
pub latest-IsRowOf :
    (p : VerificationRow → Bool) (rows : List VerificationRow) {r : VerificationRow}
    → distinct same_verification rows ≡ true
    → latest p rows ≡ some r
    → IsRowOf p rows r
unfolding latest distinct
latest-IsRowOf p [] keys h = absurd (cc)
latest-IsRowOf p (x ∷ rows) {r} keys h =
    let fresh : any_row (same_verification x) rows ≡ false = ground arith in
    let later : distinct same_verification rows ≡ true = ground arith in
    elim (Bool-cases (p x)) [
      | inr e ↦ tail-IsRowOf p x r rows fresh (latest-IsRowOf p rows later (rw e at h))
      | inl e ↦ elim (Option-cases (latest p rows)) [
        | inl none_there ↦
            let same : x ≡ r = some_injective (rw (e, none_there) at h) in
            subst (IsRowOf p (x ∷ rows)) same (head-IsRowOf p x rows e fresh)
        | inr (y, found) ↦ elim (Bool-cases (ltb x.created_at y.created_at)) [
          | inl older ↦
              let same : y ≡ r = some_injective (rw (e, found, older) at h) in
              subst (IsRowOf p (x ∷ rows)) same
                (tail-IsRowOf p x y rows fresh (latest-IsRowOf p rows later found))
          | inr newest ↦
              let same : x ≡ r = some_injective (rw (e, found, newest) at h) in
              subst (IsRowOf p (x ∷ rows)) same (head-IsRowOf p x rows e fresh)
        ]
      ]
    ]

-- A statement that reads one row finds it and leaves the tables.
pub one_row_ok :
    (o : Option VerificationRow) (db : Db) {r : VerificationRow} {db' : Db}
    → one_row o db ≡ ok (r, db')
    → (o ≡ some r) × (db ≡ db')
one_row_ok none db h = absurd (cc)
one_row_ok (some x) db h = (ap (λ y. some y.0) (ok_injective h), ap (λ y. y.1) (ok_injective h))
