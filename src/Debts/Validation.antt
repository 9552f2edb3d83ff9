-- ===== src/Debts/Validation.antt =====
-- internal/debts/service.go: the validation of the inputs.
pub mod Laws
use mlakp_backend.Base.{
  ℕ, Bool, true, false, ◌||◌, Option, none, some, if◌then◌else◌, Result, ok, err, or_else, pos,
  ◌>>=◌, ◌>>◌,
}
use mlakp_backend.Text.{Text, lit, trim_space, is_empty, text_eq}
use mlakp_backend.Money.{parse_minor, validate_positive}
use mlakp_backend.Debts.{
  DebtError, invalid_debt_id, invalid_user_id, invalid_status, invalid_balance_type, invalid_amount,
  ReviewRejectedInput, ReviewRejectedParams, ListInput, ListFilters,
}

-- `x := strings.TrimSpace(value); if x == "" { return e }`
abbrev pub required : Text → DebtError → Result DebtError Text
required value e = if is_empty (trim_space value) then err e else ok (trim_space value)

-- `validateTransitionInput`
unfoldable pub validate_transition_input : Text → Text → Result DebtError (Text × Text)
validate_transition_input debt_id debtor_id = do
  debt ← required debt_id invalid_debt_id
  debtor ← required debtor_id invalid_user_id
  ok (debt, debtor)

unfoldable pub adjusted : Option Text → Result DebtError (Option ℕ)
adjusted none = ok none
adjusted (some text) = do
  amount_minor ← or_else (parse_minor text) invalid_amount
  or_else (validate_positive (pos amount_minor)) invalid_amount
  ok (some amount_minor)

-- `validateReviewRejectedInput`
unfoldable pub validate_review_rejected_input :
    ReviewRejectedInput → Result DebtError ReviewRejectedParams
validate_review_rejected_input input = do
  debt_id ← required input.debt_id invalid_debt_id
  reviewer_id ← required input.reviewer_id invalid_user_id
  amount_minor ← adjusted input.amount
  ok (record { debt_id = debt_id; reviewer_id = reviewer_id; amount_minor = amount_minor })

abbrev pub is_debt_status : Text → Bool
is_debt_status t =
    text_eq t (lit "pending")
    || text_eq t (lit "accepted")
    || text_eq t (lit "rejected")
    || text_eq t (lit "partially_settled")
    || text_eq t (lit "settled")

abbrev pub is_balance_type : Text → Bool
is_balance_type t = text_eq t (lit "owed") || text_eq t (lit "receivable")

abbrev pub status_filter : Text → Result DebtError (Option Text)
status_filter t =
    if is_empty t then ok none else if is_debt_status t then ok (some t) else err invalid_status

abbrev pub balance_filter : Text → Result DebtError (Option Text)
balance_filter t =
    if is_empty t
    then ok none
    else if is_balance_type t
    then ok (some t)
    else err invalid_balance_type

-- `validateListInput`
unfoldable pub validate_list_input : ListInput → Result DebtError ListFilters
validate_list_input input = do
  user_id ← required input.user_id invalid_user_id
  status ← status_filter (trim_space input.status)
  balance_type ← balance_filter (trim_space input.balance_type)
  ok (record { user_id = user_id; status = status; balance_type = balance_type })
