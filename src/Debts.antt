-- ===== src/Debts.antt =====
-- internal/debts: accepting, rejecting and sending back debts. The data of debt.go, the methods of
-- the repository and of the service over it, with what they promise.
pub mod Repository
pub mod Validation
pub mod Service
mod Tests
use mlakp_backend.Base.{ℕ, Option}
use mlakp_backend.Text.{Text}
use mlakp_backend.Store.{Time, DebtStatus, DebtRow, SqlError, no_rows, failed, duplicate}
use mlakp_backend.Uuid.{format_uuid}

-- The error values of the package; `other` is any error passed on from the driver.
pub data DebtError : Type 0 where
  invalid_debt_id invalid_user_id invalid_type invalid_status invalid_balance_type invalid_amount
        not_found forbidden invalid_state other :
      DebtError

-- `Debt`
pub record Debt : Type 0 where
  pub id : Text
  pub expense_id : Text
  pub debtor_id : Text
  pub creditor_id : Text
  pub original_amount_minor : ℕ
  pub remaining_amount_minor : ℕ
  pub status : DebtStatus
  pub accepted_at : Option Time
  pub rejected_at : Option Time
  pub settled_at : Option Time
  pub created_at : Time
  pub updated_at : Time

-- `debtFromSQLC`
unfoldable pub debt_from_sqlc : DebtRow → Debt
debt_from_sqlc d = record {
  id = format_uuid d.id;
  expense_id = format_uuid d.expense_id;
  debtor_id = format_uuid d.debtor_id;
  creditor_id = format_uuid d.creditor_id;
  original_amount_minor = d.original_amount_minor;
  remaining_amount_minor = d.remaining_amount_minor;
  status = d.status;
  accepted_at = d.accepted_at;
  rejected_at = d.rejected_at;
  settled_at = d.settled_at;
  created_at = d.created_at;
  updated_at = d.updated_at;
}

-- `ReviewRejectedInput`
pub record ReviewRejectedInput : Type 0 where
  pub debt_id : Text
  pub reviewer_id : Text
  pub amount : Option Text

-- `ReviewRejectedParams`
pub record ReviewRejectedParams : Type 0 where
  pub debt_id : Text
  pub reviewer_id : Text
  pub amount_minor : Option ℕ

-- `ListInput` and `ListFilters`
pub record ListInput : Type 0 where
  pub user_id : Text
  pub status : Text
  pub balance_type : Text

pub record ListFilters : Type 0 where
  pub user_id : Text
  pub status : Option Text
  pub balance_type : Option Text

-- `if errors.Is(err, pgx.ErrNoRows) { return ErrNotFound }; return err`
abbrev pub not_found_or_other : SqlError → DebtError
not_found_or_other no_rows = not_found
not_found_or_other failed = other
not_found_or_other (duplicate name) = other
