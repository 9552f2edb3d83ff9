-- ===== src/Sql/Expenses.antt =====
-- internal/postgres/sqlc/expenses.sql.go: the statements that create an expense, with the constraints
-- of migrations/20260505000400_expenses.up.sql. (The users and the group that the rows refer to
-- exist, since the caller has just read their memberships.)
use mlakp_backend.Base.{ℕ, Bool, not, ◌&&◌, ◌||◌, Option, none, ◌∷◌, ◌==◌, ltb, leb, length}
use mlakp_backend.Text.{Text, lit, text_eq}
use mlakp_backend.Store.{Query, Uuid, Time, DebtRow, ExpenseRow, ParticipantRow, pending}
use mlakp_backend.Sql.Rows.{any_row}
use mlakp_backend.Sql.Debts.{debt_has_id, insert_if}

abbrev pub expense_has_id : Uuid → ExpenseRow → Bool
expense_has_id id e = e.id == id

abbrev pub participant_has_id : Uuid → ParticipantRow → Bool
participant_has_id id p = p.id == id

-- `CreateExpenseParams`
pub record CreateExpenseParams : Type 0 where
  pub group_id : Uuid
  pub title : Text
  pub description : Option Text
  pub total_amount_minor : ℕ
  pub currency : Text
  pub paid_by : Uuid
  pub split_type : Text
  pub receipt_url : Option Text
  pub expense_date : Option Time
  pub created_by : Uuid

abbrev pub new_expense : CreateExpenseParams → Uuid → Time → ExpenseRow
new_expense arg id now = record {
  id = id;
  group_id = arg.group_id;
  title = arg.title;
  description = arg.description;
  total_amount_minor = arg.total_amount_minor;
  currency = arg.currency;
  paid_by = arg.paid_by;
  split_type = arg.split_type;
  receipt_url = arg.receipt_url;
  expense_date = arg.expense_date;
  created_by = arg.created_by;
  created_at = now;
  updated_at = now;
}

unfoldable pub create_expense : CreateExpenseParams → Query ExpenseRow
create_expense arg id now db =
    insert_if
      (not (any_row (expense_has_id id) db.expenses)
        && (leb 1 (length arg.title)
            && (leb (length arg.title) 160
                && (ltb 0 arg.total_amount_minor
                    && (text_eq arg.currency (lit "THB")
                        && (text_eq arg.split_type (lit "equal")
                            || text_eq arg.split_type (lit "manual")))))))
      (new_expense arg id now) (record db { expenses = new_expense arg id now ∷ db.expenses })

-- `CreateExpenseParticipantParams`
pub record CreateExpenseParticipantParams : Type 0 where
  pub expense_id : Uuid
  pub user_id : Uuid
  pub share_amount_minor : ℕ

abbrev pub new_participant : CreateExpenseParticipantParams → Uuid → Time → ParticipantRow
new_participant arg id now = record {
  id = id;
  expense_id = arg.expense_id;
  user_id = arg.user_id;
  share_amount_minor = arg.share_amount_minor;
  created_at = now;
}

abbrev pub takes_part : Uuid → Uuid → ParticipantRow → Bool
takes_part expense_id user_id p = p.expense_id == expense_id && p.user_id == user_id

unfoldable pub create_expense_participant : CreateExpenseParticipantParams → Query ParticipantRow
create_expense_participant arg id now db =
    insert_if
      (not (any_row (participant_has_id id) db.participants)
        && (any_row (expense_has_id arg.expense_id) db.expenses
            && (not (any_row (takes_part arg.expense_id arg.user_id) db.participants)
                && ltb 0 arg.share_amount_minor)))
      (new_participant arg id now)
      (record db { participants = new_participant arg id now ∷ db.participants })

-- `CreateDebtParams`
pub record CreateDebtParams : Type 0 where
  pub expense_id : Uuid
  pub debtor_id : Uuid
  pub creditor_id : Uuid
  pub original_amount_minor : ℕ

abbrev pub new_debt : CreateDebtParams → Uuid → Time → DebtRow
new_debt arg id now = record {
  id = id;
  expense_id = arg.expense_id;
  debtor_id = arg.debtor_id;
  creditor_id = arg.creditor_id;
  original_amount_minor = arg.original_amount_minor;
  remaining_amount_minor = arg.original_amount_minor;
  status = pending;
  accepted_at = none;
  rejected_at = none;
  settled_at = none;
  created_at = now;
  updated_at = now;
}

abbrev pub debt_is : Uuid → Uuid → Uuid → DebtRow → Bool
debt_is expense_id debtor_id creditor_id d =
    d.expense_id == expense_id && d.debtor_id == debtor_id && d.creditor_id == creditor_id

unfoldable pub create_debt : CreateDebtParams → Query DebtRow
create_debt arg id now db =
    insert_if
      (not (any_row (debt_has_id id) db.debts)
        && (any_row (expense_has_id arg.expense_id) db.expenses
            && (not (any_row (debt_is arg.expense_id arg.debtor_id arg.creditor_id) db.debts)
                && (not (arg.debtor_id == arg.creditor_id) && ltb 0 arg.original_amount_minor))))
      (new_debt arg id now) (record db { debts = new_debt arg id now ∷ db.debts })
