-- ===== src/Payments/Repository/Errors.antt =====
-- The errors of `Confirm` (internal/payments/repository.go) on a ledger.
use mlakp_backend.Base.{
  ◌≡◌, ◌≢◌, ◌≤◌, refl, subst, true, false, not, Option, ◌==◌, ==→eq, ltb, err, arith, Option-cases,
  inl, inr,
}
use mlakp_backend.Text.{Text}
use mlakp_backend.Store.{
  Server, transaction, World, Uuid, Db, DebtStatus, pending, accepted, rejected, partially_settled,
  settled, no_rows, failed, duplicate, SqlError,
}
use mlakp_backend.Store.Spec.{
  Ensures, by_bind, by_pure, by_lift, by_throw_if, by_exec, by_on_error, by_transaction, weaken,
}
use mlakp_backend.Store.Invariants.{post_err}
use mlakp_backend.Sql.Rows.{find_row_sound, find_row-All}
use mlakp_backend.Sql.Debts.{debt_has_id, is_open}
use mlakp_backend.Sql.Payments.{
  get_payment_with_debt_for_update, PaymentWithDebt, apply_confirmed_payment_to_debt,
  confirm_payment, awaits,
}
use mlakp_backend.Ledger.{IsLedger, IsBalanced}
use mlakp_backend.Ledger.Confirm.{waiting_debt}
use mlakp_backend.Payments.{
  PaymentError, invalid_payment_id, invalid_user_id, forbidden, invalid_payment_state,
  invalid_debt_state, amount_exceeds_remaining, not_found_or_other, any_error, other,
  payment_from_sqlc,
}
use mlakp_backend.Payments.Repository.{
  parse_pair_uuids, can_confirm_payment_for_debt, confirm_body, confirm,
}
use mlakp_backend.Payments.Repository.Review.{Finds, get_payment_with_debt-Finds}

abbrev DebtIsFit : PaymentError → Type 0
DebtIsFit e = (e ≢ invalid_debt_state) × (e ≢ amount_exceeds_remaining)

open-can_confirm : (s : DebtStatus) → is_open s ≡ true → can_confirm_payment_for_debt s ≡ true
unfolding can_confirm_payment_for_debt
open-can_confirm pending h = cc
open-can_confirm accepted h = refl
open-can_confirm rejected h = cc
open-can_confirm partially_settled h = refl
open-can_confirm settled h = cc

-- The debt of a payment that waits is open and covers it.
debt_fits :
    (payment_id : Uuid) (db : Db) (f : PaymentWithDebt)
    → IsLedger db
    → Finds payment_id db f
    → not (awaits f.payment.status) ≡ false
    → (can_confirm_payment_for_debt f.debt_status ≡ true)
      × (f.payment.amount_minor ≤ f.debt_remaining_amount_minor)
debt_fits payment_id db f v (found, (d, found', status, left)) waits =
    let balance =
      find_row-All (IsBalanced db.payments) (debt_has_id f.payment.debt_id) db.debts v.balanced
        found' in
    let same =
      ==→eq d.id f.payment.debt_id
        (find_row_sound (debt_has_id f.payment.debt_id) db.debts found') in
    let (_, open_debt, covered) =
      waiting_debt payment_id db d v found (ground arith) balance same in
    (rw status (open-can_confirm d.status open_debt), omega (arith, covered, left))

module _ (s : Server) (scan : Text → Option Uuid) where
  parse_error :
      (payment_id user_id : Text) (e : PaymentError)
      → parse_pair_uuids s scan payment_id user_id invalid_payment_id invalid_user_id ≡ err e
      → DebtIsFit e
  unfolding parse_pair_uuids
  parse_error payment_id user_id e h = elim (Option-cases (scan payment_id)) [
    | inl a ↦ let same : e ≡ invalid_payment_id = ground arith in rw same (λ x. cc, λ x. cc)
    | inr (p, a) ↦ elim (Option-cases (scan user_id)) [
      | inl b ↦ let same : e ≡ invalid_user_id = ground arith in rw same (λ x. cc, λ x. cc)
      | inr (u, b) ↦ absurd (ground arith)
    ]
  ]

  sql_error : (e : SqlError) → DebtIsFit (not_found_or_other e)
  sql_error no_rows = (λ x. cc, λ x. cc)
  sql_error failed = (λ x. cc, λ x. cc)
  sql_error (duplicate name) = (λ x. cc, λ x. cc)

  confirm_body-Ensures :
      (payment_id user_id : Uuid)
      → Ensures IsLedger (confirm_body s scan payment_id user_id) (λ _ _. Unit {0}) DebtIsFit
  unfolding confirm_body
  confirm_body-Ensures payment_id user_id =
      by_bind
        (by_on_error not_found_or_other (
          by_exec s {Q = λ f db. IsLedger db × Finds payment_id db f}
            (get_payment_with_debt_for_update payment_id) (sql_error failed)
            (λ id now db f db' v h.
              let (same, finds) = get_payment_with_debt-Finds payment_id id now db h in
              subst (λ x. IsLedger x × Finds payment_id x f) same (v, finds))
            (λ _ _ _ e _ _. sql_error e)))
        (λ f.
          by_bind
            (by_throw_if (not (f.payment.received_by == user_id)) forbidden
              (λ _ _ _. (λ x. cc, λ x. cc)))
            (λ _.
              by_bind
                (by_throw_if (not (awaits f.payment.status)) invalid_payment_state
                  (λ _ _ _. (λ x. cc, λ x. cc)))
                (λ _.
                  by_bind
                    (by_throw_if (not (can_confirm_payment_for_debt f.debt_status))
                      invalid_debt_state
                      (λ db (((v, finds), mine), waits) bad.
                        let fits = debt_fits payment_id db f v finds waits in
                        absurd (ground arith)))
                    (λ _.
                      by_bind
                        (by_throw_if (ltb f.debt_remaining_amount_minor f.payment.amount_minor)
                          amount_exceeds_remaining
                          (λ db ((((v, finds), mine), waits), able) bad.
                            let fits = debt_fits payment_id db f v finds waits in
                            absurd (ground arith)))
                        (λ _.
                          by_bind
                            (by_on_error any_error (
                              by_exec s {Q = λ _ db. Unit {0}}
                                (apply_confirmed_payment_to_debt f.payment.debt_id
                                  f.payment.amount_minor)
                                (λ x. cc, λ x. cc) (λ _ _ _ _ _ _ _. tt)
                                (λ _ _ _ _ _ _. (λ x. cc, λ x. cc))))
                            (λ _.
                              by_bind
                                (by_on_error any_error (
                                  by_exec s {Q = λ _ db. Unit {0}} (confirm_payment payment_id)
                                    (λ x. cc, λ x. cc) (λ _ _ _ _ _ _ _. tt)
                                    (λ _ _ _ _ _ _. (λ x. cc, λ x. cc))))
                                (λ p. by_pure (payment_from_sqlc p) (λ db v. tt))))))))

  -- On a ledger, `Confirm` never refuses because of the state of the debt or what is left of it.
  pub confirm_fits :
      (payment_id user_id : Text) (w : World) {e : PaymentError}
      → IsLedger w.db
      → (confirm s scan payment_id user_id w).0 ≡ err e
      → (e ≢ invalid_debt_state) × (e ≢ amount_exceeds_remaining)
  unfolding confirm
  confirm_fits payment_id user_id w v h =
      let run =
        by_bind {P = IsLedger} {F = DebtIsFit}
          {f = λ ids. transaction s other (confirm_body s scan ids.0 ids.1)}
          (by_lift (parse_pair_uuids s scan payment_id user_id invalid_payment_id invalid_user_id)
            (parse_error payment_id user_id))
          (λ ids.
            by_transaction s other (λ x. cc, λ x. cc)
              (weaken (λ db (_, ledger). ledger) (confirm_body-Ensures ids.0 ids.1))) in
      post_err _ DebtIsFit _ _ (run.holds w v) h
