-- ===== src/Payments/Repository/Mark.antt =====
-- `Mark` of internal/payments/repository.go against the ledger.
use mlakp_backend.Base.{
  ◌-◌, ◌≡◌, refl, subst, true, false, not, ok, some, arith, ◌==◌, Option-cases, inl, inr, ltb,
  Option,
}
use mlakp_backend.Text.{Text}
use mlakp_backend.Store.{
  Server, World, Uuid, Time, Db, DebtStatus, DebtRow, PaymentRow, pending, accepted, rejected,
  partially_settled, settled,
}
use mlakp_backend.Store.Spec.{Ensures, by_bind, by_pure, by_throw_if, by_exec, by_on_error}
use mlakp_backend.Store.Invariants.{validated_invariant}
use mlakp_backend.Sql.Rows.{find_row}
use mlakp_backend.Sql.Debts.{debt_has_id, is_open}
use mlakp_backend.Sql.Payments.{
  sum_amounts, awaits_for, get_debt_for_payment_mark, create_payment, MarkView,
}
use mlakp_backend.Ledger.{IsLedger}
use mlakp_backend.Ledger.Payments.{HasRoom, create_payment-IsLedger}
use mlakp_backend.Payments.{invalid_debt_id, invalid_user_id, other, MarkParams}
use mlakp_backend.Payments.Repository.{parse_pair_uuids, can_mark_payment_for_debt, mark_body, mark}

-- What the first statement of `Mark` returns.
abbrev Shows : Uuid → Db → MarkView → Type 0
Shows debt_id db m =
    (d : DebtRow) × (find_row (debt_has_id debt_id) db.debts ≡ some d)
    × (m.debtor_id ≡ d.debtor_id)
    × (m.creditor_id ≡ d.creditor_id)
    × (m.remaining_amount_minor ≡ d.remaining_amount_minor)
    × (m.status ≡ d.status)
    × (m.pending_amount_minor ≡ sum_amounts (awaits_for d.id) db.payments)

get_debt_for_payment_mark-Shows :
    (debt_id id : Uuid) (now : Time) (db : Db) {m : MarkView} {db' : Db}
    → get_debt_for_payment_mark debt_id id now db ≡ ok (m, db')
    → (db ≡ db') × Shows debt_id db m
unfolding get_debt_for_payment_mark
get_debt_for_payment_mark-Shows debt_id id now db {m} {db'} h =
    elim (Option-cases (find_row (debt_has_id debt_id) db.debts)) [
      | inl e ↦ absurd (ground arith)
      | inr (d, e) ↦ (
        ground arith,
        (d, e, ground arith, ground arith, ground arith, ground arith, ground arith),
      )
    ]

can_mark-open : (s : DebtStatus) → can_mark_payment_for_debt s ≡ true → is_open s ≡ true
unfolding can_mark_payment_for_debt
can_mark-open pending h = cc
can_mark-open accepted h = refl
can_mark-open rejected h = cc
can_mark-open partially_settled h = refl
can_mark-open settled h = cc

-- Past the guards of `Mark` the new payment has its room.
mark_step :
    (params : MarkParams) (debt_id user_id id : Uuid) (now : Time) (db db' : Db) (m : MarkView)
    {p : PaymentRow}
    → IsLedger db
    → Shows debt_id db m
    → not (m.debtor_id == user_id) ≡ false
    → not (can_mark_payment_for_debt m.status) ≡ false
    → ltb 0 m.pending_amount_minor ≡ false
    → ltb (m.remaining_amount_minor - m.pending_amount_minor) params.amount_minor ≡ false
    → create_payment
        (record {
          debt_id = debt_id;
          paid_by = user_id;
          received_by = m.creditor_id;
          amount_minor = params.amount_minor;
          note = params.note;
        })
        id
        now
        db
      ≡ ok (p, db')
    → IsLedger db'
mark_step params debt_id user_id id now db db' m v
      (d, found, debtor, creditor, left, status, waiting) mine markable nothing covered h =
    let may : can_mark_payment_for_debt m.status ≡ true = ground arith in
    let open_debt : is_open d.status ≡ true = can_mark-open d.status (rw status at may) in
    let room : HasRoom db.payments params.amount_minor d = (open_debt, ground arith) in
    create_payment-IsLedger _ id now db d v found room (ground arith) creditor h

module _ (s : Server) (scan : Text → Option Uuid) where
  mark_body-IsLedger :
      (params : MarkParams) (debt_id user_id : Uuid)
      → Ensures IsLedger
          (mark_body s scan params debt_id user_id)
          (λ _ db. IsLedger db)
          (λ _. Unit {0})
  unfolding mark_body
  mark_body-IsLedger params debt_id user_id =
      by_bind
        (by_on_error _ (
          by_exec s {Q = λ m db. IsLedger db × Shows debt_id db m}
            (get_debt_for_payment_mark debt_id) tt
            (λ id now db m db' v h.
              let (same, shows) = get_debt_for_payment_mark-Shows debt_id id now db h in
              subst (λ x. IsLedger x × Shows debt_id x m) same (v, shows))
            (λ _ _ _ _ _ _. tt)))
        (λ m. by_bind (by_throw_if _ _ (λ _ _ _. tt)) (λ _.
          by_bind (by_throw_if _ _ (λ _ _ _. tt)) (λ _.
            by_bind (by_throw_if _ _ (λ _ _ _. tt)) (λ _.
              by_bind (by_throw_if _ _ (λ _ _ _. tt)) (λ _.
                by_bind
                  (by_on_error _ (
                    by_exec s {Q = λ _ db. IsLedger db} (create_payment _) tt
                      (λ id now db p db' (((((v, shows), mine), markable), nothing), covered) h.
                        mark_step params debt_id user_id id now db db' m v shows mine markable
                          nothing covered h)
                      (λ _ _ _ _ _ _. tt)))
                  (λ p. by_pure _ (λ db v. v)))))))

  -- Marking a payment keeps the ledger.
  pub mark-IsLedger :
      (params : MarkParams) (w : World) → IsLedger w.db → IsLedger (mark s scan params w).1.db
  unfolding mark
  mark-IsLedger params w v =
      validated_invariant s IsLedger other
        (parse_pair_uuids s scan params.debt_id params.user_id invalid_debt_id invalid_user_id)
        (λ ids. mark_body s scan params ids.0 ids.1) (λ ids. mark_body-IsLedger params ids.0 ids.1)
        w v
