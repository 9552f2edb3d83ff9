-- ===== src/Ledger/Confirm.antt =====
-- The two updates of a confirmation and the one of a rejection against the ledger.
use mlakp_backend.Base.{
  ◌≤◌, ◌<◌, ◌≡◌, refl, ◌∙◌, true, false, All-map, ◌==◌, arith, some, Bool-cases, inl, inr,
}
use mlakp_backend.Store.{Uuid, Time, Db, DebtRow, PaymentRow}
use mlakp_backend.Sql.Rows.{
  any_row-update_rows, find_row, find_row-All, update_rows, update_rows-All,
}
use mlakp_backend.Sql.Debts.{is_open}
use mlakp_backend.Sql.Payments.{
  sum_amounts, awaits_for, awaits, payment_has_id, may_review, confirm_row, reject_payment_row,
  may_apply, apply_row,
}
use mlakp_backend.Ledger.{IsLedger, IsBalanced, IsBacked, settles}
use mlakp_backend.Ledger.Sums.{PaymentKeys-update, DebtKeys-update}
use mlakp_backend.Ledger.Review.{
  awaits-le-sum, apply_row-IsBalanced, same_sums, confirmed_payments, confirm_sums, reject_sums,
}

-- The debt of a payment that awaits confirmation is open, and what is left of it covers the payment.
pub waiting_debt :
    (pid : Uuid) (db : Db) {p : PaymentRow} (d : DebtRow)
    → IsLedger db
    → find_row (payment_has_id pid) db.payments ≡ some p
    → awaits p.status ≡ true
    → IsBalanced db.payments d
    → d.id ≡ p.debt_id
    → (0 < p.amount_minor) × (is_open d.status ≡ true) × (p.amount_minor ≤ d.remaining_amount_minor)
waiting_debt pid db {p} d v found waits b same =
    let (amount, _) =
      find_row-All (IsBacked db.debts) (payment_has_id pid) db.payments v.backed found in
    let part : p.amount_minor ≤ sum_amounts (awaits_for d.id) db.payments =
      rw same (awaits-le-sum pid db.payments found waits) in
    (
      amount,
      elim (Bool-cases (is_open d.status)) [
        | inl e ↦ e
        | inr e ↦ absurd (omega (arith, b.quiet e))
      ],
      omega (arith, b.reserved),
    )

module _ (pid : Uuid) (db : Db) {p : PaymentRow} (now later : Time) (v : IsLedger db)
    (found : find_row (payment_has_id pid) db.payments ≡ some p) (waits : awaits p.status ≡ true)
    (d : DebtRow) (b : IsBalanced db.payments d) where
  paid_debt :
      may_apply p.debt_id p.amount_minor d ≡ true
      → IsBalanced
          (confirmed_payments pid db.payments later v.payment_keys found waits)
          (apply_row p.amount_minor now d)
  paid_debt q =
      let same : d.id ≡ p.debt_id = ground arith in
      let (amount, open_debt, covered) = waiting_debt pid db d v found waits b same in
      let hit : (p.debt_id == d.id) ≡ true = ground arith in
      let sums = confirm_sums pid db.payments later v.payment_keys found waits d.id in
      apply_row-IsBalanced db.payments _ p.amount_minor now d b amount open_debt covered
        (rw hit at sums.0) (rw hit at sums.1)

  other_debt :
      may_apply p.debt_id p.amount_minor d ≡ false
      → IsBalanced (confirmed_payments pid db.payments later v.payment_keys found waits) d
  other_debt q = elim (Bool-cases (p.debt_id == d.id)) [
    | inl hit ↦
        let same : d.id ≡ p.debt_id = ground arith in
        let (amount, open_debt, covered) = waiting_debt pid db d v found waits b same in
        absurd (ground arith)
    | inr miss ↦
        let sums = confirm_sums pid db.payments later v.payment_keys found waits d.id in
        let paid = rw miss at sums.0 in
        let waiting = rw miss at sums.1 in
        same_sums db.payments _ d b (omega (arith, paid)) (omega (arith, waiting))
  ]

pub confirm-IsLedger :
    (pid : Uuid) (db : Db) {p : PaymentRow} (now later : Time)
    → IsLedger db
    → find_row (payment_has_id pid) db.payments ≡ some p
    → awaits p.status ≡ true
    → IsLedger (record db {
      debts =
          update_rows (may_apply p.debt_id p.amount_minor) (apply_row p.amount_minor now) db.debts;
      payments = update_rows (may_review pid) (confirm_row later) db.payments;
    })
confirm-IsLedger pid db {p} now later v found waits = record {
  balanced =
      update_rows-All (IsBalanced db.payments)
        (IsBalanced (update_rows (may_review pid) (confirm_row later) db.payments))
        (may_apply p.debt_id p.amount_minor) (apply_row p.amount_minor now) db.debts v.balanced
        (λ d b q. paid_debt pid db now later v found waits d b q)
        (λ d b q. other_debt pid db now later v found waits d b q);
  backed =
      update_rows-All (IsBacked db.debts) _ (may_review pid) (confirm_row later) db.payments
        v.backed
        (λ x (amount, back) _.
          (amount, any_row-update_rows (settles x) _ _ db.debts (λ d. refl) ∙ back))
        (λ x (amount, back) _.
          (amount, any_row-update_rows (settles x) _ _ db.debts (λ d. refl) ∙ back));
  debt_keys =
      DebtKeys-update (may_apply p.debt_id p.amount_minor) (apply_row p.amount_minor now) db.debts
        (λ d. refl) v.debt_keys;
  payment_keys =
      PaymentKeys-update (may_review pid) (confirm_row later) db.payments (λ x. refl)
        v.payment_keys;
}

pub reject-IsLedger :
    (pid : Uuid) (db : Db) {p : PaymentRow} (now : Time)
    → IsLedger db
    → find_row (payment_has_id pid) db.payments ≡ some p
    → awaits p.status ≡ true
    → IsLedger
        (record db { payments = update_rows (may_review pid) (reject_payment_row now) db.payments })
reject-IsLedger pid db {p} now v found waits =
    let sums = reject_sums pid db.payments now v.payment_keys found waits in
    record {
      balanced =
          All-map _ _ db.debts
            (λ d b.
              let (paid, waiting) = sums d.id in
              same_sums db.payments
                (update_rows (may_review pid) (reject_payment_row now) db.payments) d b paid
                waiting)
            v.balanced;
      backed =
          update_rows-All (IsBacked db.debts) (IsBacked db.debts) (may_review pid)
            (reject_payment_row now) db.payments v.backed (λ x back _. back) (λ x back _. back);
      debt_keys = v.debt_keys;
      payment_keys =
          PaymentKeys-update (may_review pid) (reject_payment_row now) db.payments (λ x. refl)
            v.payment_keys;
    }
