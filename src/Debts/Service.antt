-- ===== src/Debts/Service.antt =====
-- internal/debts/service.go: the service. Whether it has a notifier is a parameter.
pub mod Laws
use mlakp_backend.Base.{Bool, true, false, Option, if◌then◌else◌}
use mlakp_backend.Text.{Text, lit, trim_space, text_eq}
use mlakp_backend.Store.{Server, Action, Uuid, Notice, pure, throw, lift, notify, ◌>>=◌, ◌>>◌}
use mlakp_backend.Debts.{DebtError, invalid_type, Debt, ReviewRejectedInput}
use mlakp_backend.Debts.Repository
use mlakp_backend.Debts.Validation.{validate_transition_input, validate_review_rejected_input}

abbrev pub accepted_notice : Debt → Notice
accepted_notice debt = record {
  user_id = debt.creditor_id;
  type = lit "debt.accepted";
  title = lit "Expense accepted";
  body = lit "A shared expense was accepted.";
  entity_type = lit "debt";
  entity_id = debt.id;
}

abbrev pub rejected_notice : Debt → Notice
rejected_notice debt = record {
  user_id = debt.creditor_id;
  type = lit "debt.rejected";
  title = lit "Expense rejected";
  body = lit "A shared expense was rejected and needs review.";
  entity_type = lit "debt";
  entity_id = debt.id;
}

abbrev pub resent_notice : Debt → Notice
resent_notice debt = record {
  user_id = debt.debtor_id;
  type = lit "debt.resent";
  title = lit "Expense sent back for review";
  body = lit "A rejected expense was reviewed and is waiting for your response.";
  entity_type = lit "debt";
  entity_id = debt.id;
}

module _ (s : Server) (scan : Text → Option Uuid) (has_notifier : Bool) where
  abbrev pub accept_debt : Text → Text → Action DebtError Debt
  accept_debt debt_id debtor_id = do
    debt ← Repository.accept s scan debt_id debtor_id
    notify has_notifier (accepted_notice debt)
    pure debt

  abbrev pub reject_debt : Text → Text → Action DebtError Debt
  reject_debt debt_id debtor_id = do
    debt ← Repository.reject s scan debt_id debtor_id
    notify has_notifier (rejected_notice debt)
    pure debt

  -- `switch strings.TrimSpace(transitionType)`
  unfoldable pub run_transition : Text → Text → Text → Action DebtError Debt
  run_transition debt_id debtor_id transition_type =
      if text_eq transition_type (lit "accept")
      then accept_debt debt_id debtor_id
      else if text_eq transition_type (lit "reject")
      then reject_debt debt_id debtor_id
      else throw invalid_type

  -- `Service.Transition`
  unfoldable pub transition : Text → Text → Text → Action DebtError Debt
  transition debt_id debtor_id transition_type = do
    ids ← lift (validate_transition_input debt_id debtor_id)
    run_transition ids.0 ids.1 (trim_space transition_type)

  -- `Service.ReviewRejected`
  unfoldable pub review_rejected : ReviewRejectedInput → Action DebtError Debt
  review_rejected input = do
    params ← lift (validate_review_rejected_input input)
    debt ← Repository.review_rejected s scan params
    notify has_notifier (resent_notice debt)
    pure debt
