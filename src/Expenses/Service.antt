-- ===== src/Expenses/Service.antt =====
-- internal/expenses/service.go: `Create`. Whether the service has a notifier is a parameter; the
-- metadata of a notice is left out.
pub mod Laws
use mlakp_backend.Base.{Bool, Option, List, [], ◌∷◌}
use mlakp_backend.Text.{Text, lit}
use mlakp_backend.Store.{Server, Action, Uuid, Time, Notice, pure, lift, notify, ◌>>=◌, ◌>>◌}
use mlakp_backend.Expenses.{ExpenseError, CreateInput, CreatedExpense, Debt}
use mlakp_backend.Expenses.Repository
use mlakp_backend.Expenses.Validation.{validate_create_input}

abbrev pub created_notice : Debt → Notice
created_notice debt = record {
  user_id = debt.debtor_id;
  type = lit "expense.created";
  title = lit "New expense to review";
  body = lit "A shared expense is waiting for your review.";
  entity_type = lit "debt";
  entity_id = debt.id;
}

module _ (s : Server) (scan : Text → Option Uuid) (order : List Uuid → List Uuid)
    (to_upper : Text → Text) (request_uri : Text → Option (Text × Text))
    (parse_date : Text → Option Time) (has_notifier : Bool) where
  -- `for _, debt := range created.Debts`
  unfoldable pub notify_debtors : List Debt → Action ExpenseError (Unit {0})
  notify_debtors [] = pure tt
  notify_debtors (debt ∷ debts) = do notify has_notifier (created_notice debt); notify_debtors debts

  -- `Service.Create`
  unfoldable pub create : CreateInput → Action ExpenseError CreatedExpense
  create input = do
    params ← lift (validate_create_input to_upper request_uri parse_date input)
    created ← Repository.create s scan order params
    notify_debtors created.debts
    pure created
