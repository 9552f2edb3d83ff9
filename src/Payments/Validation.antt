-- ===== src/Payments/Validation.antt =====
-- internal/payments/service.go: the validation of the inputs.
pub mod Laws
use mlakp_backend.Base.{
  ℕ, Bool, true, false, not, ◌&&◌, ◌||◌, Option, none, some, if◌then◌else◌, Result, ok, err, ◌>>=◌,
  ◌>>◌, fail_if, or_else, pos,
}
use mlakp_backend.Text.{Text, lit, trim_space, is_empty, text_eq}
use mlakp_backend.Money.{parse_minor, validate_positive}
use mlakp_backend.Payments.{
  PaymentError, invalid_debt_id, invalid_payment_id, invalid_user_id, invalid_receiver_id,
  invalid_amount, forbidden, invalid_review_type, invalid_status, invalid_type, MarkInput,
  BulkMarkInput, MarkParams, BulkMarkParams, ReviewInput, ListInput, ListFilters,
}

-- `x := strings.TrimSpace(value); if x == "" { return e }`
abbrev pub required : Text → PaymentError → Result PaymentError Text
required value e = if is_empty (trim_space value) then err e else ok (trim_space value)

-- `normalizeOptionalString`
abbrev pub normalize_optional_string : Option Text → Option Text
normalize_optional_string none = none
normalize_optional_string (some value) =
    if is_empty (trim_space value) then none else some (trim_space value)

-- `money.ParseMinor` and `money.ValidatePositive` of an amount.
unfoldable pub positive_amount : Text → Result PaymentError ℕ
positive_amount text = do
  amount_minor ← or_else (parse_minor text) invalid_amount
  or_else (validate_positive (pos amount_minor)) invalid_amount
  ok amount_minor

-- `validateMarkInput`
unfoldable pub validate_mark_input : MarkInput → Result PaymentError MarkParams
validate_mark_input input = do
  debt_id ← required input.debt_id invalid_debt_id
  user_id ← required input.user_id invalid_user_id
  amount_minor ← positive_amount input.amount
  ok (record {
    debt_id = debt_id;
    user_id = user_id;
    amount_minor = amount_minor;
    note = normalize_optional_string input.note;
  })

-- `validateBulkMarkInput`
unfoldable pub validate_bulk_mark_input : BulkMarkInput → Result PaymentError BulkMarkParams
validate_bulk_mark_input input = do
  user_id ← required input.user_id invalid_user_id
  received_by ← required input.received_by invalid_receiver_id
  fail_if (text_eq received_by user_id) forbidden
  amount_minor ← positive_amount input.amount
  ok (record {
    user_id = user_id;
    received_by = received_by;
    amount_minor = amount_minor;
    note = normalize_optional_string input.note;
  })

-- `validateReviewIdentity`
unfoldable pub validate_review_identity : ReviewInput → Result PaymentError (Text × Text)
validate_review_identity input = do
  payment_id ← required input.payment_id invalid_payment_id
  user_id ← required input.user_id invalid_user_id
  ok (payment_id, user_id)

-- `validateReviewInput`
unfoldable pub validate_review_input : ReviewInput → Result PaymentError (Text × Text × Text)
validate_review_input input = do
  ids ← validate_review_identity input
  let review_type = trim_space input.type
  fail_if (not (text_eq review_type (lit "confirm")) && not (text_eq review_type (lit "reject")))
      invalid_review_type
  ok (ids.0, ids.1, review_type)

abbrev pub is_payment_status : Text → Bool
is_payment_status t =
    text_eq t (lit "pending_confirmation")
    || text_eq t (lit "confirmed")
    || text_eq t (lit "rejected")

abbrev pub is_payment_direction : Text → Bool
is_payment_direction t = text_eq t (lit "received") || text_eq t (lit "sent")

abbrev status_filter : Text → Result PaymentError (Option Text)
status_filter t =
    if is_empty t then ok none else if is_payment_status t then ok (some t) else err invalid_status

abbrev type_filter : Text → Result PaymentError (Option Text)
type_filter t =
    if is_empty t || text_eq t (lit "all")
    then ok none
    else if is_payment_direction t
    then ok (some t)
    else err invalid_type

-- `validateListInput`
unfoldable pub validate_list_input : ListInput → Result PaymentError ListFilters
validate_list_input input = do
  user_id ← required input.user_id invalid_user_id
  status ← status_filter (trim_space input.status)
  type ← type_filter (trim_space input.type)
  ok (record { user_id = user_id; status = status; type = type })
