-- ===== src/Expenses/Validation/Laws.antt =====
-- What the validation of an expense lets through.
use mlakp_backend.Base.{
  ok_injective, ◌≡◌, subst, ◌<◌, true, not, ◌&&◌, ◌||◌, Option, ok, bind_ok, fail_if, or_else, pos,
  sum, All, arith, ltb,
}
use mlakp_backend.Text.{Text, lit, trim_space, text_eq, byte_length}
use mlakp_backend.Text.Laws.{text_eq_sound}
use mlakp_backend.Money.{parse_minor, validate_positive}
use mlakp_backend.Store.{Time}
use mlakp_backend.Expenses.{
  invalid_group_id, invalid_title, invalid_amount, invalid_currency, invalid_payer_id,
  invalid_split_type, forbidden, CreateInput, CreateParams,
}
use mlakp_backend.Expenses.Shares.{build_participant_shares, has_debtor}
use mlakp_backend.Expenses.Shares.Laws.{ids, amounts, Distinct, build_participant_shares_sound}
use mlakp_backend.Expenses.Validation.{
  required, currency_of, normalize_receipt_url, normalize_expense_date, validate_create_input,
}

-- In THB, with positive shares of distinct participants, someone other than the payer among them,
-- that make up the total.
abbrev pub IsValid : CreateParams → Type 0
IsValid p =
    (p.currency ≡ lit "THB")
    × Distinct (ids p.participants)
    × (has_debtor p.paid_by (ids p.participants) ≡ true)
    × All (λ n. 0 < n) (amounts p.participants)
    × (sum (amounts p.participants) ≡ p.total_minor)

-- An expense that is let through is in THB, and its shares are positive, are those of distinct
-- participants, someone other than the payer among them, and make up its total.
pub validate_create_input_sound :
    (to_upper : Text → Text) (request_uri : Text → Option (Text × Text))
    (parse_date : Text → Option Time) (input : CreateInput) {p : CreateParams}
    → validate_create_input to_upper request_uri parse_date input ≡ ok p
    → IsValid p
unfolding validate_create_input
validate_create_input_sound to_upper request_uri parse_date input {p} h =
    let title = trim_space input.title in
    let kind = trim_space input.split_type in
    let (group_id, _, h1) = bind_ok (required input.group_id invalid_group_id) _ h in
    let (_, _, h2) =
      bind_ok (fail_if (ltb (byte_length title) 1 || ltb 160 (byte_length title)) invalid_title) _
        h1 in
    let (total, _, h3) = bind_ok (or_else (parse_minor input.total_amount) invalid_amount) _ h2 in
    let (_, _, h4) = bind_ok (or_else (validate_positive (pos total)) invalid_amount) _ h3 in
    let currency = currency_of to_upper request_uri parse_date input.currency in
    let (_, thb, h5) =
      bind_ok (fail_if (not (text_eq currency (lit "THB"))) invalid_currency) _ h4 in
    let (paid_by, _, h6) = bind_ok (required input.paid_by invalid_payer_id) _ h5 in
    let (_, _, h7) =
      bind_ok
        (fail_if (not (text_eq kind (lit "equal")) && not (text_eq kind (lit "manual")))
          invalid_split_type)
        _ h6 in
    let (created_by, _, h8) = bind_ok (required input.created_by forbidden) _ h7 in
    let (url, _, h9) =
      bind_ok (normalize_receipt_url to_upper request_uri parse_date input.receipt_url) _ h8 in
    let (date, _, h10) =
      bind_ok (normalize_expense_date to_upper request_uri parse_date input.expense_date) _ h9 in
    let (ps, built, h11) =
      bind_ok (build_participant_shares total paid_by kind input.participants) _ h10 in
    let (_, _, apart, owes, each, exact) =
      build_participant_shares_sound total paid_by kind input.participants built in
    let known : text_eq currency (lit "THB") ≡ true = ground arith in
    subst IsValid (ok_injective h11)
      (text_eq_sound currency (lit "THB") known, apart, owes, each, exact)
