-- ===== src/Ledger.antt =====
-- What the tables of the ledger mean together: the invariant of the payments, debts and expenses
-- components. It is stronger than the CHECK constraints of migrations/20260505000400 and
-- 20260505000500.
pub mod Sums
pub mod Debts
pub mod Payments
pub mod Review
pub mod Confirm
pub mod Expenses
use mlakp_backend.Base.{
  ℕ, ◌+◌, ◌≤◌, ◌<◌, ◌≡◌, ◌≢◌, Bool, true, false, ◌&&◌, List, [], ◌∷◌, All, ◌==◌,
}
use mlakp_backend.Store.{
  Uuid, Db, DebtStatus, DebtRow, PaymentRow, pending, accepted, rejected, partially_settled,
  settled,
}
use mlakp_backend.Sql.Rows.{any_row}
use mlakp_backend.Sql.Debts.{is_open, debt_has_id}
use mlakp_backend.Sql.Payments.{sum_amounts, awaits_for, is_confirmed, payment_has_id}

abbrev pub confirmed_for : Uuid → PaymentRow → Bool
confirmed_for debt_id p = p.debt_id == debt_id && is_confirmed p.status

-- How much of a debt is left in each of its states.
abbrev pub StatusFits : DebtStatus → ℕ → ℕ → Type 0
StatusFits pending original remaining = remaining ≡ original
StatusFits accepted original remaining = remaining ≡ original
StatusFits rejected original remaining = remaining ≡ original
StatusFits partially_settled original remaining = (0 < remaining) × (remaining < original)
StatusFits settled original remaining = remaining ≡ 0

-- A debt against the payments: what is left and what is confirmed make up the original amount, what
-- awaits confirmation is covered by what is left, and only an accepted debt that is not settled has
-- payments that await confirmation.
pub record IsBalanced (payments : List PaymentRow) (d : DebtRow) : Type 0 where
  pub positive : 0 < d.original_amount_minor
  pub parties : d.debtor_id ≢ d.creditor_id
  pub conserved :
      d.remaining_amount_minor + sum_amounts (confirmed_for d.id) payments ≡ d.original_amount_minor
  pub reserved : sum_amounts (awaits_for d.id) payments ≤ d.remaining_amount_minor
  pub quiet : is_open d.status ≡ false → sum_amounts (awaits_for d.id) payments ≡ 0
  pub fits : StatusFits d.status d.original_amount_minor d.remaining_amount_minor

-- The payment is from the debtor of its debt to the creditor.
abbrev pub settles : PaymentRow → DebtRow → Bool
settles p d = d.id == p.debt_id && (d.debtor_id == p.paid_by && d.creditor_id == p.received_by)

abbrev pub IsBacked : List DebtRow → PaymentRow → Type 0
IsBacked debts p = (0 < p.amount_minor) × (any_row (settles p) debts ≡ true)

-- The primary keys.
abbrev pub DebtKeys : List DebtRow → Type 0
DebtKeys [] = Unit
DebtKeys (d ∷ debts) = (any_row (debt_has_id d.id) debts ≡ false) × DebtKeys debts

abbrev pub PaymentKeys : List PaymentRow → Type 0
PaymentKeys [] = Unit
PaymentKeys (p ∷ payments) = (any_row (payment_has_id p.id) payments ≡ false) × PaymentKeys payments

pub record IsLedger (db : Db) : Type 0 where
  pub balanced : All (IsBalanced db.payments) db.debts
  pub backed : All (IsBacked db.debts) db.payments
  pub debt_keys : DebtKeys db.debts
  pub payment_keys : PaymentKeys db.payments
