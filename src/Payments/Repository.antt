-- ===== src/Payments/Repository.antt =====
-- internal/payments/repository.go: the methods that change the tables, each in one transaction.
pub mod Mark
pub mod Review
pub mod Candidates
pub mod Bulk
pub mod Errors
use mlakp_backend.Base.{
  ℕ, zero, suc, ◌+◌, ◌-◌, ◌%◌, ◌^◌, Bool, true, false, not, ◌||◌, Option, none, some, List, [], ◌∷◌,
  ◌==◌, ltb, leb, if◌then◌else◌, Result, ok, err,
}
use mlakp_backend.Text.{Text}
use mlakp_backend.Store.{
  Server, Action, Uuid, DebtStatus, DebtRow, PaymentStatus, exec, transaction, pure, throw,
  throw_if, lift, on_error, ◌>>=◌, ◌>>◌, pending, accepted, rejected, partially_settled, settled,
}
use mlakp_backend.Sql.Payments.{
  get_debt_for_payment_mark, create_payment, CreatePaymentParams,
  list_bulk_payment_debts_for_update, get_payment_with_debt_for_update,
  apply_confirmed_payment_to_debt, confirm_payment, reject_payment, awaits,
}
use mlakp_backend.Payments.{
  PaymentError, invalid_debt_id, invalid_payment_id, invalid_user_id, invalid_receiver_id,
  not_found, forbidden, invalid_debt_state, invalid_payment_state, pending_payment_exists,
  amount_exceeds_remaining, other, Payment, payment_from_sqlc, MarkParams, BulkMarkParams,
  not_found_or_other, any_error,
}

-- `canMarkPaymentForDebt`
unfoldable pub can_mark_payment_for_debt : DebtStatus → Bool
can_mark_payment_for_debt pending = false
can_mark_payment_for_debt accepted = true
can_mark_payment_for_debt rejected = false
can_mark_payment_for_debt partially_settled = true
can_mark_payment_for_debt settled = false

-- `canConfirmPaymentForDebt`
unfoldable pub can_confirm_payment_for_debt : DebtStatus → Bool
can_confirm_payment_for_debt pending = false
can_confirm_payment_for_debt accepted = true
can_confirm_payment_for_debt rejected = false
can_confirm_payment_for_debt partially_settled = true
can_confirm_payment_for_debt settled = false

-- The loop that adds up an int64, kept modulo 2^64.
unfoldable pub total_available : List DebtRow → ℕ → ℕ
total_available [] total = total
total_available (d ∷ debts) total =
    total_available debts ((total + d.remaining_amount_minor) % 2 ^ 64)

-- `params.AmountMinor > totalAvailable`: a total from 2^63 on is a negative int64.
abbrev pub exceeds : ℕ → ℕ → Bool
exceeds amount total = leb (2 ^ 63) total || ltb total amount

abbrev pub is_none : List DebtRow → Bool
is_none [] = true
is_none (d ∷ debts) = false

module _ (s : Server) (scan : Text → Option Uuid) where
  abbrev parse_uuid : Text → PaymentError → Result PaymentError Uuid
  parse_uuid value e = elim (scan value) [ none ↦ err e | some u ↦ ok u ]

  -- `parsePairUUIDs`
  unfoldable pub parse_pair_uuids :
      Text → Text → PaymentError → PaymentError → Result PaymentError (Uuid × Uuid)
  parse_pair_uuids first second first_err second_err = elim (parse_uuid first first_err) [
    | err e ↦ err e
    | ok u ↦ elim (parse_uuid second second_err) [ err e ↦ err e | ok v ↦ ok (u, v) ]
  ]

  -- The body of the transaction of `Mark`. (Nothing awaits confirmation where the last test is
  -- made, so the difference in it is not negative.)
  unfoldable pub mark_body : MarkParams → Uuid → Uuid → Action PaymentError Payment
  mark_body params debt_id user_id = do
    debt ← on_error not_found_or_other (exec s (get_debt_for_payment_mark debt_id))
    throw_if (not (debt.debtor_id == user_id)) forbidden
    throw_if (not (can_mark_payment_for_debt debt.status)) invalid_debt_state
    throw_if (ltb 0 debt.pending_amount_minor) pending_payment_exists
    throw_if (ltb (debt.remaining_amount_minor - debt.pending_amount_minor) params.amount_minor)
        amount_exceeds_remaining
    payment ← on_error any_error (
        exec s (
          create_payment (record {
            debt_id = debt_id;
            paid_by = user_id;
            received_by = debt.creditor_id;
            amount_minor = params.amount_minor;
            note = params.note;
          })))
    pure (payment_from_sqlc payment)

  -- `Mark`
  unfoldable pub mark : MarkParams → Action PaymentError Payment
  mark params = do
    ids ← lift (parse_pair_uuids params.debt_id params.user_id invalid_debt_id invalid_user_id)
    transaction s other (mark_body params ids.0 ids.1)

  -- One round of the loop of `BulkMark`, with the rounds that come after it.
  unfoldable pub allocate_round :
      BulkMarkParams
      → Uuid
      → Uuid
      → DebtRow
      → ℕ
      → Action PaymentError (List Payment)
      → Action PaymentError (List Payment)
  allocate_round params user_id received_by d amount later = do
    payment ← on_error any_error (
        exec s (
          create_payment (record {
            debt_id = d.id;
            paid_by = user_id;
            received_by = received_by;
            amount_minor = amount;
            note = params.note;
          })))
    created ← later
    pure (payment_from_sqlc payment ∷ created)

  -- The loop over the debts, with the amount that is left to allocate.
  unfoldable pub allocate :
      BulkMarkParams → Uuid → Uuid → List DebtRow → ℕ → Action PaymentError (List Payment)
  allocate params user_id received_by [] remaining = pure []
  allocate params user_id received_by (d ∷ debts) remaining =
      let amount =
        if ltb remaining d.remaining_amount_minor then remaining else d.remaining_amount_minor in
      let later = allocate params user_id received_by debts (remaining - amount) in
      if remaining == 0 then pure [] else allocate_round params user_id received_by d amount later

  unfoldable pub bulk_mark_body : BulkMarkParams → Uuid → Uuid → Action PaymentError (List Payment)
  bulk_mark_body params user_id received_by = do
    debts ← on_error any_error (exec s (list_bulk_payment_debts_for_update user_id received_by))
    throw_if (is_none debts) not_found
    throw_if (exceeds params.amount_minor (total_available debts 0)) amount_exceeds_remaining
    allocate params user_id received_by debts params.amount_minor

  -- `BulkMark`
  unfoldable pub bulk_mark : BulkMarkParams → Action PaymentError (List Payment)
  bulk_mark params = do
    ids ←
        lift
          (parse_pair_uuids params.user_id params.received_by invalid_user_id invalid_receiver_id)
    transaction s other (bulk_mark_body params ids.0 ids.1)

  unfoldable pub confirm_body : Uuid → Uuid → Action PaymentError Payment
  confirm_body payment_id user_id = do
    found ← on_error not_found_or_other (exec s (get_payment_with_debt_for_update payment_id))
    throw_if (not (found.payment.received_by == user_id)) forbidden
    throw_if (not (awaits found.payment.status)) invalid_payment_state
    throw_if (not (can_confirm_payment_for_debt found.debt_status)) invalid_debt_state
    throw_if (ltb found.debt_remaining_amount_minor found.payment.amount_minor)
        amount_exceeds_remaining
    debt ←
        on_error any_error (
          exec s (apply_confirmed_payment_to_debt found.payment.debt_id found.payment.amount_minor))
    confirmed ← on_error any_error (exec s (confirm_payment payment_id))
    pure (payment_from_sqlc confirmed)

  -- `Confirm`
  unfoldable pub confirm : Text → Text → Action PaymentError Payment
  confirm payment_id user_id = do
    ids ← lift (parse_pair_uuids payment_id user_id invalid_payment_id invalid_user_id)
    transaction s other (confirm_body ids.0 ids.1)

  unfoldable pub reject_body : Uuid → Uuid → Action PaymentError Payment
  reject_body payment_id user_id = do
    found ← on_error not_found_or_other (exec s (get_payment_with_debt_for_update payment_id))
    throw_if (not (found.payment.received_by == user_id)) forbidden
    throw_if (not (awaits found.payment.status)) invalid_payment_state
    rejected_row ← on_error any_error (exec s (reject_payment payment_id))
    pure (payment_from_sqlc rejected_row)

  -- `Reject`
  unfoldable pub reject : Text → Text → Action PaymentError Payment
  reject payment_id user_id = do
    ids ← lift (parse_pair_uuids payment_id user_id invalid_payment_id invalid_user_id)
    transaction s other (reject_body ids.0 ids.1)
