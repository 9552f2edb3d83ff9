-- ===== src/Expenses.antt =====
-- internal/expenses: creating expenses that participants share. The data of expense.go, the shares
-- and the rest of the validation (service.go), the method of the repository that creates an expense,
-- and the service over it.
pub mod Shares
pub mod Validation
pub mod Repository
pub mod Service
mod Tests
use mlakp_backend.Base.{ℕ, Option, List}
use mlakp_backend.Text.{Text}
use mlakp_backend.Store.{Time, DebtStatus, DebtRow, ExpenseRow, ParticipantRow}
use mlakp_backend.Uuid.{format_uuid}

-- The error values of the package; `other` is any error passed on from the driver.
pub data ExpenseError : Type 0 where
  invalid_group_id invalid_expense_id invalid_title invalid_amount invalid_currency invalid_payer_id
        invalid_split_type invalid_participant duplicate_participant no_debtor_participant
        invalid_manual_share split_mismatch invalid_receipt_url invalid_expense_date forbidden
        not_found payer_not_member participant_not_member other :
      ExpenseError

-- `ParticipantInput`
pub record ParticipantInput : Type 0 where
  pub user_id : Text
  pub share_amount : Option Text

-- `CreateInput`
pub record CreateInput : Type 0 where
  pub group_id : Text
  pub title : Text
  pub description : Option Text
  pub total_amount : Text
  pub currency : Text
  pub paid_by : Text
  pub split_type : Text
  pub receipt_url : Option Text
  pub expense_date : Option Text
  pub participants : List ParticipantInput
  pub created_by : Text

-- `participantShare`
pub record ParticipantShare : Type 0 where
  pub user_id : Text
  pub share_minor : ℕ

-- `createParams`
pub record CreateParams : Type 0 where
  pub group_id : Text
  pub title : Text
  pub description : Option Text
  pub total_minor : ℕ
  pub currency : Text
  pub paid_by : Text
  pub split_type : Text
  pub receipt_url : Option Text
  pub expense_date : Option Time
  pub participants : List ParticipantShare
  pub created_by : Text

-- `Expense`
pub record Expense : Type 0 where
  pub id : Text
  pub group_id : Text
  pub title : Text
  pub description : Option Text
  pub total_amount_minor : ℕ
  pub currency : Text
  pub paid_by : Text
  pub split_type : Text
  pub receipt_url : Option Text
  pub expense_date : Option Time
  pub created_by : Text
  pub created_at : Time
  pub updated_at : Time

-- `Participant`
pub record Participant : Type 0 where
  pub id : Text
  pub expense_id : Text
  pub user_id : Text
  pub share_amount_minor : ℕ
  pub created_at : Time

-- `Debt`
pub record Debt : Type 0 where
  pub id : Text
  pub expense_id : Text
  pub debtor_id : Text
  pub creditor_id : Text
  pub original_amount_minor : ℕ
  pub remaining_amount_minor : ℕ
  pub status : DebtStatus
  pub accepted_at : Option Time
  pub rejected_at : Option Time
  pub settled_at : Option Time
  pub created_at : Time
  pub updated_at : Time

-- `CreatedExpense`
pub record CreatedExpense : Type 0 where
  pub expense : Expense
  pub participants : List Participant
  pub debts : List Debt

-- `expenseFromSQLC`
unfoldable pub expense_from_sqlc : ExpenseRow → Expense
expense_from_sqlc e = record {
  id = format_uuid e.id;
  group_id = format_uuid e.group_id;
  title = e.title;
  description = e.description;
  total_amount_minor = e.total_amount_minor;
  currency = e.currency;
  paid_by = format_uuid e.paid_by;
  split_type = e.split_type;
  receipt_url = e.receipt_url;
  expense_date = e.expense_date;
  created_by = format_uuid e.created_by;
  created_at = e.created_at;
  updated_at = e.updated_at;
}

-- `participantFromSQLC`
unfoldable pub participant_from_sqlc : ParticipantRow → Participant
participant_from_sqlc p = record {
  id = format_uuid p.id;
  expense_id = format_uuid p.expense_id;
  user_id = format_uuid p.user_id;
  share_amount_minor = p.share_amount_minor;
  created_at = p.created_at;
}

-- `debtFromSQLC`
unfoldable pub debt_from_sqlc : DebtRow → Debt
debt_from_sqlc d = record {
  id = format_uuid d.id;
  expense_id = format_uuid d.expense_id;
  debtor_id = format_uuid d.debtor_id;
  creditor_id = format_uuid d.creditor_id;
  original_amount_minor = d.original_amount_minor;
  remaining_amount_minor = d.remaining_amount_minor;
  status = d.status;
  accepted_at = d.accepted_at;
  rejected_at = d.rejected_at;
  settled_at = d.settled_at;
  created_at = d.created_at;
  updated_at = d.updated_at;
}
