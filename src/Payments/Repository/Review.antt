-- ===== src/Payments/Repository/Review.antt =====
-- `Confirm` and `Reject` of internal/payments/repository.go against the ledger.
use mlakp_backend.Base.{
  ◌≡◌, subst, Bool, true, false, not, ok, some, arith, ◌==◌, Option-cases, inl, inr, ltb, Option,
}
use mlakp_backend.Text.{Text}
use mlakp_backend.Store.{Server, World, Uuid, Time, Db, DebtRow, PaymentRow}
use mlakp_backend.Store.Spec.{Ensures, by_bind, by_pure, by_throw_if, by_exec, by_on_error}
use mlakp_backend.Store.Invariants.{validated_invariant}
use mlakp_backend.Sql.Rows.{find_row, update_rows}
use mlakp_backend.Sql.Debts.{debt_has_id}
use mlakp_backend.Sql.Payments.{
  get_payment_with_debt_for_update, may_apply, apply_row, may_review, confirm_row,
  reject_payment_row, update_payment, PaymentWithDebt, payment_has_id, awaits,
  apply_confirmed_payment_to_debt, confirm_payment, reject_payment,
}
use mlakp_backend.Ledger.{IsLedger}
use mlakp_backend.Ledger.Debts.{update_debt_ok}
use mlakp_backend.Ledger.Confirm.{confirm-IsLedger, reject-IsLedger}
use mlakp_backend.Payments.{
  invalid_payment_id, invalid_user_id, other, forbidden, invalid_payment_state, invalid_debt_state,
  amount_exceeds_remaining, any_error, not_found_or_other, payment_from_sqlc,
}
use mlakp_backend.Payments.Repository.{
  parse_pair_uuids, can_confirm_payment_for_debt, confirm_body, confirm, reject_body, reject,
}

-- What the first statement of both methods returns.
abbrev pub Finds : Uuid → Db → PaymentWithDebt → Type 0
Finds payment_id db f =
    (find_row (payment_has_id payment_id) db.payments ≡ some f.payment)
    × ((d : DebtRow) × (find_row (debt_has_id f.payment.debt_id) db.debts ≡ some d)
        × (f.debt_status ≡ d.status)
        × (f.debt_remaining_amount_minor ≡ d.remaining_amount_minor))

pub get_payment_with_debt-Finds :
    (payment_id id : Uuid) (now : Time) (db : Db) {f : PaymentWithDebt} {db' : Db}
    → get_payment_with_debt_for_update payment_id id now db ≡ ok (f, db')
    → (db ≡ db') × Finds payment_id db f
unfolding get_payment_with_debt_for_update
get_payment_with_debt-Finds payment_id id now db h =
    elim (Option-cases (find_row (payment_has_id payment_id) db.payments)) [
      | inl e ↦ absurd (ground arith)
      | inr (p, e) ↦ elim (Option-cases (find_row (debt_has_id p.debt_id) db.debts)) [
        | inl e' ↦ absurd (ground arith)
        | inr (d, e') ↦
            (ground arith, (ground arith, (d, ground arith, ground arith, ground arith)))
      ]
    ]

update_payment_ok :
    (q : PaymentRow → Bool) (f : PaymentRow → PaymentRow) (db : Db) {p : PaymentRow} {db' : Db}
    → update_payment q f db ≡ ok (p, db')
    → record db { payments = update_rows q f db.payments } ≡ db'
update_payment_ok q f db h = elim (Option-cases (find_row q db.payments)) [
  | inl e ↦ absurd (ground arith)
  | inr (x, e) ↦ ground arith
]

-- The tables between the two updates of a confirmation.
abbrev Half : Uuid → PaymentRow → Db → Type 0
Half payment_id p db =
    (before : Db) × (now : Time) × IsLedger before
    × (find_row (payment_has_id payment_id) before.payments ≡ some p)
    × (awaits p.status ≡ true)
    × (record before {
      debts =
          update_rows (may_apply p.debt_id p.amount_minor) (apply_row p.amount_minor now)
            before.debts;
    }
        ≡ db)

apply-Half :
    (payment_id id : Uuid) (now : Time) (db db' : Db) (f : PaymentWithDebt) {d : DebtRow}
    → IsLedger db
    → Finds payment_id db f
    → not (awaits f.payment.status) ≡ false
    → apply_confirmed_payment_to_debt f.payment.debt_id f.payment.amount_minor id now db
      ≡ ok (d, db')
    → Half payment_id f.payment db'
unfolding apply_confirmed_payment_to_debt
apply-Half payment_id id now db db' f v finds waits h =
    let (_, _, _, same) =
      update_debt_ok (may_apply f.payment.debt_id f.payment.amount_minor)
        (apply_row f.payment.amount_minor now) db h in
    (db, now, v, finds.0, ground arith, same)

confirm-Half :
    (payment_id id : Uuid) (now : Time) (db db' : Db) (p : PaymentRow) {q : PaymentRow}
    → Half payment_id p db
    → confirm_payment payment_id id now db ≡ ok (q, db')
    → IsLedger db'
unfolding confirm_payment
confirm-Half payment_id id now db db' p (before, earlier, v, found, waits, half) h =
    let done = update_payment_ok (may_review payment_id) (confirm_row now) db h in
    subst IsLedger done (
      subst
        (λ (x : Db). IsLedger (record x {
          payments = update_rows (may_review payment_id) (confirm_row now) x.payments;
        }))
        half (confirm-IsLedger payment_id before earlier now v found waits))

reject_step :
    (payment_id id : Uuid) (now : Time) (db db' : Db) (f : PaymentWithDebt) {q : PaymentRow}
    → IsLedger db
    → Finds payment_id db f
    → not (awaits f.payment.status) ≡ false
    → reject_payment payment_id id now db ≡ ok (q, db')
    → IsLedger db'
unfolding reject_payment
reject_step payment_id id now db db' f v finds waits h =
    subst IsLedger (update_payment_ok (may_review payment_id) (reject_payment_row now) db h)
      (reject-IsLedger payment_id db now v finds.0 (ground arith))

module _ (s : Server) (scan : Text → Option Uuid) where
  confirm_body-IsLedger :
      (payment_id user_id : Uuid)
      → Ensures IsLedger
          (confirm_body s scan payment_id user_id)
          (λ _ db. IsLedger db)
          (λ _. Unit {0})
  unfolding confirm_body
  confirm_body-IsLedger payment_id user_id =
      by_bind
        (by_on_error not_found_or_other (
          by_exec s {Q = λ f db. IsLedger db × Finds payment_id db f}
            (get_payment_with_debt_for_update payment_id) tt
            (λ id now db f db' v h.
              let (same, finds) = get_payment_with_debt-Finds payment_id id now db h in
              subst (λ x. IsLedger x × Finds payment_id x f) same (v, finds))
            (λ _ _ _ _ _ _. tt)))
        (λ f.
          by_bind (by_throw_if (not (f.payment.received_by == user_id)) forbidden (λ _ _ _. tt))
            (λ _.
              by_bind
                (by_throw_if (not (awaits f.payment.status)) invalid_payment_state (λ _ _ _. tt))
                (λ _.
                  by_bind
                    (by_throw_if (not (can_confirm_payment_for_debt f.debt_status))
                      invalid_debt_state (λ _ _ _. tt))
                    (λ _.
                      by_bind
                        (by_throw_if (ltb f.debt_remaining_amount_minor f.payment.amount_minor)
                          amount_exceeds_remaining (λ _ _ _. tt))
                        (λ _.
                          by_bind
                            (by_on_error any_error (
                              by_exec s {Q = λ _ db. Half payment_id f.payment db}
                                (apply_confirmed_payment_to_debt f.payment.debt_id
                                  f.payment.amount_minor)
                                tt
                                (λ id now db d db'
                                    (((((v, finds), mine), waits), markable), covered) h.
                                  apply-Half payment_id id now db db' f v finds waits h)
                                (λ _ _ _ _ _ _. tt)))
                            (λ _.
                              by_bind
                                (by_on_error any_error (
                                  by_exec s {Q = λ _ db. IsLedger db} (confirm_payment payment_id)
                                    tt
                                    (λ id now db q db' half h.
                                      confirm-Half payment_id id now db db' f.payment half h)
                                    (λ _ _ _ _ _ _. tt)))
                                (λ p. by_pure (payment_from_sqlc p) (λ db v. v))))))))

  -- Confirming a payment keeps the ledger.
  pub confirm-keeps :
      (payment_id user_id : Text) (w : World)
      → IsLedger w.db
      → IsLedger (confirm s scan payment_id user_id w).1.db
  unfolding confirm
  confirm-keeps payment_id user_id w v =
      validated_invariant s IsLedger other
        (parse_pair_uuids s scan payment_id user_id invalid_payment_id invalid_user_id)
        (λ ids. confirm_body s scan ids.0 ids.1) (λ ids. confirm_body-IsLedger ids.0 ids.1) w v

  reject_body-IsLedger :
      (payment_id user_id : Uuid)
      → Ensures IsLedger
          (reject_body s scan payment_id user_id)
          (λ _ db. IsLedger db)
          (λ _. Unit {0})
  unfolding reject_body
  reject_body-IsLedger payment_id user_id =
      by_bind
        (by_on_error not_found_or_other (
          by_exec s {Q = λ f db. IsLedger db × Finds payment_id db f}
            (get_payment_with_debt_for_update payment_id) tt
            (λ id now db f db' v h.
              let (same, finds) = get_payment_with_debt-Finds payment_id id now db h in
              subst (λ x. IsLedger x × Finds payment_id x f) same (v, finds))
            (λ _ _ _ _ _ _. tt)))
        (λ f.
          by_bind (by_throw_if (not (f.payment.received_by == user_id)) forbidden (λ _ _ _. tt))
            (λ _.
              by_bind
                (by_throw_if (not (awaits f.payment.status)) invalid_payment_state (λ _ _ _. tt))
                (λ _.
                  by_bind
                    (by_on_error any_error (
                      by_exec s {Q = λ _ db. IsLedger db} (reject_payment payment_id) tt
                        (λ id now db q db' (((v, finds), mine), waits) h.
                          reject_step payment_id id now db db' f v finds waits h)
                        (λ _ _ _ _ _ _. tt)))
                    (λ p. by_pure (payment_from_sqlc p) (λ db v. v)))))

  -- Rejecting a payment keeps the ledger.
  pub reject-keeps :
      (payment_id user_id : Text) (w : World)
      → IsLedger w.db
      → IsLedger (reject s scan payment_id user_id w).1.db
  unfolding reject
  reject-keeps payment_id user_id w v =
      validated_invariant s IsLedger other
        (parse_pair_uuids s scan payment_id user_id invalid_payment_id invalid_user_id)
        (λ ids. reject_body s scan ids.0 ids.1) (λ ids. reject_body-IsLedger ids.0 ids.1) w v
