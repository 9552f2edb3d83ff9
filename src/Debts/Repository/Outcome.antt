-- ===== src/Debts/Repository/Outcome.antt =====
-- What `Accept` and `Reject` of internal/debts/repository.go return, in every case.
use mlakp_backend.Base.{not, Option, none, some, ◌==◌, Result, ok, err, if◌then◌else◌}
use mlakp_backend.Text.{Text}
use mlakp_backend.Store.{Uuid, Time, DebtRow, DebtStatus}
use mlakp_backend.Sql.Debts.{is_pending}
use mlakp_backend.Uuid.{format_uuid}
use mlakp_backend.Debts.{DebtError, Debt, not_found, forbidden, invalid_state}

-- The debt of a row with another status, times of its answer and time of its last change.
abbrev pub answered_debt : DebtRow → DebtStatus → Option Time → Option Time → Time → Debt
answered_debt d status accepted_at rejected_at updated_at = record {
  id = format_uuid d.id;
  expense_id = format_uuid d.expense_id;
  debtor_id = format_uuid d.debtor_id;
  creditor_id = format_uuid d.creditor_id;
  original_amount_minor = d.original_amount_minor;
  remaining_amount_minor = d.remaining_amount_minor;
  status = status;
  accepted_at = accepted_at;
  rejected_at = rejected_at;
  settled_at = d.settled_at;
  created_at = d.created_at;
  updated_at = updated_at;
}

-- The debt is missing, another user's, not pending, or becomes what `answer` makes of it.
pub transition_outcome : Option DebtRow → Uuid → (DebtRow → Debt) → Result DebtError Debt
transition_outcome none debtor_id answer = err not_found
transition_outcome (some d) debtor_id answer =
    if not (d.debtor_id == debtor_id)
    then err forbidden
    else if is_pending d.status
    then ok (answer d)
    else err invalid_state
