-- ===== src/Expenses/Validation.antt =====
-- internal/expenses/service.go: the rest of `validateCreateInput`. `strings.ToUpper`,
-- `url.ParseRequestURI` (the scheme and the host) and `time.Parse` of a date are parameters.
pub mod Laws
use mlakp_backend.Base.{
  ℕ, Bool, true, false, not, ◌&&◌, ◌||◌, Option, none, some, List, if◌then◌else◌, Result, ok, err,
  ◌>>=◌, ◌>>◌, fail_if, or_else, pos, ltb,
}
use mlakp_backend.Text.{Text, lit, trim_space, is_empty, text_eq, byte_length}
use mlakp_backend.Money.{parse_minor, validate_positive}
use mlakp_backend.Store.{Time}
use mlakp_backend.Expenses.{
  ExpenseError, invalid_group_id, invalid_title, invalid_amount, invalid_currency, invalid_payer_id,
  invalid_split_type, invalid_receipt_url, invalid_expense_date, forbidden, CreateInput,
  CreateParams,
}
use mlakp_backend.Expenses.Shares.{build_participant_shares}

-- `x := strings.TrimSpace(value); if x == "" { return e }`
abbrev required : Text → ExpenseError → Result ExpenseError Text
required value e = if is_empty (trim_space value) then err e else ok (trim_space value)

-- `normalizeOptionalString`
abbrev normalize_optional_string : Option Text → Option Text
normalize_optional_string none = none
normalize_optional_string (some value) =
    if is_empty (trim_space value) then none else some (trim_space value)

abbrev is_web_scheme : Text → Bool
is_web_scheme scheme = text_eq scheme (lit "http") || text_eq scheme (lit "https")

abbrev checked_url : Text → Option (Text × Text) → Result ExpenseError (Option Text)
checked_url url none = err invalid_receipt_url
checked_url url (some (scheme, host)) =
    if is_empty scheme || is_empty host || not (is_web_scheme scheme)
    then err invalid_receipt_url
    else ok (some url)

abbrev checked_date : Option Time → Result ExpenseError (Option Time)
checked_date none = err invalid_expense_date
checked_date (some date) = ok (some date)

module _ (to_upper : Text → Text) (request_uri : Text → Option (Text × Text))
    (parse_date : Text → Option Time) where
  -- `normalizeReceiptURL`
  unfoldable pub normalize_receipt_url : Option Text → Result ExpenseError (Option Text)
  normalize_receipt_url value = elim (normalize_optional_string value) [
    | none ↦ ok none
    | some trimmed ↦ checked_url trimmed (request_uri trimmed)
  ]

  -- `normalizeExpenseDate`
  unfoldable pub normalize_expense_date : Option Text → Result ExpenseError (Option Time)
  normalize_expense_date value = elim (normalize_optional_string value) [
    | none ↦ ok none
    | some trimmed ↦ checked_date (parse_date trimmed)
  ]

  -- The currency, THB by default.
  abbrev pub currency_of : Text → Text
  currency_of value =
      let currency = to_upper (trim_space value) in
      if is_empty currency then lit "THB" else currency

  -- `validateCreateInput`
  unfoldable pub validate_create_input : CreateInput → Result ExpenseError CreateParams
  validate_create_input input = do
    group_id ← required input.group_id invalid_group_id
    let title = trim_space input.title
    fail_if (ltb (byte_length title) 1 || ltb 160 (byte_length title)) invalid_title
    total_minor ← or_else (parse_minor input.total_amount) invalid_amount
    or_else (validate_positive (pos total_minor)) invalid_amount
    let currency = currency_of input.currency
    fail_if (not (text_eq currency (lit "THB"))) invalid_currency
    paid_by ← required input.paid_by invalid_payer_id
    let split_type = trim_space input.split_type
    fail_if (not (text_eq split_type (lit "equal")) && not (text_eq split_type (lit "manual")))
        invalid_split_type
    created_by ← required input.created_by forbidden
    receipt_url ← normalize_receipt_url input.receipt_url
    expense_date ← normalize_expense_date input.expense_date
    participants ← build_participant_shares total_minor paid_by split_type input.participants
    ok (record {
      group_id = group_id;
      title = title;
      description = normalize_optional_string input.description;
      total_minor = total_minor;
      currency = currency;
      paid_by = paid_by;
      split_type = split_type;
      receipt_url = receipt_url;
      expense_date = expense_date;
      participants = participants;
      created_by = created_by;
    })
