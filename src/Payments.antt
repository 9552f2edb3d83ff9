-- ===== src/Payments.antt =====
-- internal/payments: payments against debts. The data of payment.go, the repository's methods
-- (module Repository) and the service over them (module Service), with what they promise.
pub mod Repository
pub mod Validation
pub mod Service
mod Tests
use mlakp_backend.Base.{
  ℕ, Bool, true, false, Option, none, some, ◌==◌, if◌then◌else◌, Result, ok, err,
}
use mlakp_backend.Text.{Text, lit, trim_space, is_empty}
use mlakp_backend.Store.{
  Uuid, Time, PaymentStatus, PaymentRow, SqlError, no_rows, failed, duplicate,
}
use mlakp_backend.Uuid.{format_uuid}

-- The error values of the package; `other` is any error passed on from the driver.
pub data PaymentError : Type 0 where
  invalid_debt_id invalid_payment_id invalid_user_id invalid_receiver_id invalid_amount not_found
        forbidden invalid_debt_state invalid_payment_state invalid_review_type invalid_status
        invalid_type pending_payment_exists amount_exceeds_remaining other :
      PaymentError

-- `Payment`
pub record Payment : Type 0 where
  pub id : Text
  pub debt_id : Text
  pub paid_by : Text
  pub received_by : Text
  pub amount_minor : ℕ
  pub status : PaymentStatus
  pub note : Option Text
  pub confirmed_at : Option Time
  pub rejected_at : Option Time
  pub created_at : Time
  pub updated_at : Time

-- `paymentFromSQLC`
unfoldable pub payment_from_sqlc : PaymentRow → Payment
payment_from_sqlc p = record {
  id = format_uuid p.id;
  debt_id = format_uuid p.debt_id;
  paid_by = format_uuid p.paid_by;
  received_by = format_uuid p.received_by;
  amount_minor = p.amount_minor;
  status = p.status;
  note = p.note;
  confirmed_at = p.confirmed_at;
  rejected_at = p.rejected_at;
  created_at = p.created_at;
  updated_at = p.updated_at;
}

-- `MarkInput`
pub record MarkInput : Type 0 where
  pub debt_id : Text
  pub user_id : Text
  pub amount : Text
  pub note : Option Text

-- `BulkMarkInput`
pub record BulkMarkInput : Type 0 where
  pub user_id : Text
  pub received_by : Text
  pub amount : Text
  pub note : Option Text

-- `markParams`
pub record MarkParams : Type 0 where
  pub debt_id : Text
  pub user_id : Text
  pub amount_minor : ℕ
  pub note : Option Text

-- `bulkMarkParams`
pub record BulkMarkParams : Type 0 where
  pub user_id : Text
  pub received_by : Text
  pub amount_minor : ℕ
  pub note : Option Text

-- `ReviewInput`
pub record ReviewInput : Type 0 where
  pub payment_id : Text
  pub user_id : Text
  pub type : Text

-- `ListInput` and `ListFilters`
pub record ListInput : Type 0 where
  pub user_id : Text
  pub status : Text
  pub type : Text

pub record ListFilters : Type 0 where
  pub user_id : Text
  pub status : Option Text
  pub type : Option Text

-- `if errors.Is(err, pgx.ErrNoRows) { return ErrNotFound }; return err`
abbrev pub not_found_or_other : SqlError → PaymentError
not_found_or_other no_rows = not_found
not_found_or_other failed = other
not_found_or_other (duplicate name) = other

abbrev pub any_error : SqlError → PaymentError
any_error e = other
