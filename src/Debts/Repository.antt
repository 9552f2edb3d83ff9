-- ===== src/Debts/Repository.antt =====
-- internal/debts/repository.go: the methods that change debts. Each is one statement; where it finds
-- no row, a second one tells why.
pub mod Outcome
pub mod Keeps
use mlakp_backend.Base.{ℕ, Bool, true, false, not, Option, none, some, ◌==◌, Result, ok, err}
use mlakp_backend.Text.{Text}
use mlakp_backend.Store.{
  Server, Action, Uuid, DebtRow, SqlError, no_rows, failed, duplicate, exec, pure, throw, throw_if,
  lift, attempt, on_error, ◌>>=◌, ◌>>◌,
}
use mlakp_backend.Sql.Debts.{
  accept_debt, reject_debt, review_rejected_debt, get_debt_by_id, get_debt_review_context,
}
use mlakp_backend.Debts.{
  DebtError, invalid_debt_id, invalid_user_id, forbidden, invalid_state, other, Debt,
  debt_from_sqlc, ReviewRejectedParams, not_found_or_other,
}

-- `hasAdjustedAmount` and `amountMinor`.
abbrev pub has_adjusted_amount : Option ℕ → Bool
has_adjusted_amount none = false
has_adjusted_amount (some n) = true

abbrev pub adjusted_amount : Option ℕ → ℕ
adjusted_amount none = 0
adjusted_amount (some n) = n

module _ (s : Server) (scan : Text → Option Uuid) where
  -- `parseTransitionUUIDs`
  unfoldable pub parse_transition_uuids : Text → Text → Result DebtError (Uuid × Uuid)
  parse_transition_uuids debt_id debtor_id = elim (scan debt_id) [
    | none ↦ err invalid_debt_id
    | some d ↦ elim (scan debtor_id) [ none ↦ err invalid_user_id | some u ↦ ok (d, u) ]
  ]

  -- `classifyTransitionError`
  unfoldable pub classify_transition_error : SqlError → Uuid → Uuid → Action DebtError Debt
  classify_transition_error failed debt_id debtor_id = throw other
  classify_transition_error (duplicate name) debt_id debtor_id = throw other
  classify_transition_error no_rows debt_id debtor_id = do
    existing ← on_error not_found_or_other (exec s (get_debt_by_id debt_id))
    throw_if (not (existing.debtor_id == debtor_id)) forbidden
    throw invalid_state

  -- `classifyReviewError`
  unfoldable pub classify_review_error : SqlError → Uuid → Uuid → Action DebtError Debt
  classify_review_error failed debt_id reviewer_id = throw other
  classify_review_error (duplicate name) debt_id reviewer_id = throw other
  classify_review_error no_rows debt_id reviewer_id = do
    context ← on_error not_found_or_other (exec s (get_debt_review_context debt_id reviewer_id))
    throw_if (not context.is_group_owner) forbidden
    throw invalid_state

  abbrev pub transition_result : Uuid → Uuid → Result SqlError DebtRow → Action DebtError Debt
  transition_result debt_id debtor_id (ok debt) = pure (debt_from_sqlc debt)
  transition_result debt_id debtor_id (err e) = classify_transition_error e debt_id debtor_id

  abbrev pub review_result : Uuid → Uuid → Result SqlError DebtRow → Action DebtError Debt
  review_result debt_id reviewer_id (ok debt) = pure (debt_from_sqlc debt)
  review_result debt_id reviewer_id (err e) = classify_review_error e debt_id reviewer_id

  -- `Accept`
  unfoldable pub accept : Text → Text → Action DebtError Debt
  accept debt_id debtor_id = do
    ids ← lift (parse_transition_uuids debt_id debtor_id)
    result ← attempt (exec s (accept_debt ids.0 ids.1))
    transition_result ids.0 ids.1 result

  -- `Reject`
  unfoldable pub reject : Text → Text → Action DebtError Debt
  reject debt_id debtor_id = do
    ids ← lift (parse_transition_uuids debt_id debtor_id)
    result ← attempt (exec s (reject_debt ids.0 ids.1))
    transition_result ids.0 ids.1 result

  -- `ReviewRejected`
  unfoldable pub review_rejected : ReviewRejectedParams → Action DebtError Debt
  review_rejected params = do
    ids ← lift (parse_transition_uuids params.debt_id params.reviewer_id)
    result ← attempt (
        exec s (
          review_rejected_debt ids.0 ids.1 (has_adjusted_amount params.amount_minor)
            (adjusted_amount params.amount_minor)))
    review_result ids.0 ids.1 result
