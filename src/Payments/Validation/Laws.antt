-- ===== src/Payments/Validation/Laws.antt =====
-- What the validation of internal/payments/service.go lets through.
use mlakp_backend.Base.{
  bind_ok, fail_if, subst, ℕ, zero, suc, ◌≤◌, ◌<◌, ◌≡◌, ◌≢◌, refl, true, false, arith, ok,
  Result-cases, inl, inr, [],
}
use mlakp_backend.Text.{Text, lit, trim_space, is_empty, text_eq}
use mlakp_backend.Text.Laws.{text_eq_refl, trim_space_idem}
use mlakp_backend.Decimal.{max_int64}
use mlakp_backend.Money.{parse_minor, validate_positive}
use mlakp_backend.Money.Parse.{Denotes, parse_minor_sound}
use mlakp_backend.Payments.{
  PaymentError, MarkInput, BulkMarkInput, MarkParams, BulkMarkParams, invalid_debt_id,
  invalid_user_id, invalid_receiver_id, forbidden,
}
use mlakp_backend.Payments.Validation.{
  required, positive_amount, validate_mark_input, validate_bulk_mark_input,
}

-- An identifier with no white space at its ends and at least one character.
abbrev pub IsIdentifier : Text → Text → Type 0
IsIdentifier raw value = (value ≡ trim_space raw) × (value ≢ []) × (trim_space value ≡ value)

-- A positive int64 that the text denotes.
abbrev pub IsAmount : Text → ℕ → Type 0
IsAmount raw n = Denotes (trim_space raw) n × (0 < n) × (n ≤ max_int64)

required_ok :
    (raw : Text) (e : PaymentError) {value : Text}
    → required raw e ≡ ok value
    → IsIdentifier raw value
required_ok raw e {value} h =
    let same : value ≡ trim_space raw = ground arith in
    let filled : is_empty (trim_space raw) ≡ false = ground arith in
    (same, λ nothing. ground arith, rw same (trim_space_idem raw))

positive_amount_ok : (raw : Text) {n : ℕ} → positive_amount raw ≡ ok n → IsAmount raw n
unfolding positive_amount validate_positive
positive_amount_ok raw {n} h = elim (Result-cases (parse_minor raw)) [
  | inr (x, e) ↦ absurd (ground arith)
  | inl (zero, e) ↦ absurd (ground arith)
  | inl (suc m, e) ↦
      let same : suc m ≡ n = ground arith in
      let (denotes, fits) = parse_minor_sound raw e in
      subst (IsAmount raw) same (denotes, omega arith, fits)
]

-- What the validation of `Mark` lets through: trimmed identifiers that are not empty, and the
-- positive int64 that the amount denotes.
pub validate_mark_input_sound :
    (input : MarkInput) {p : MarkParams}
    → validate_mark_input input ≡ ok p
    → IsIdentifier input.debt_id p.debt_id
      × IsIdentifier input.user_id p.user_id
      × IsAmount input.amount p.amount_minor
unfolding validate_mark_input
validate_mark_input_sound input {p} h =
    let (debt_id, e, h1) = bind_ok (required input.debt_id invalid_debt_id) _ h in
    let (user_id, e', h2) = bind_ok (required input.user_id invalid_user_id) _ h1 in
    let (amount, e'', h3) = bind_ok (positive_amount input.amount) _ h2 in
    let same : (debt_id ≡ p.debt_id) × (user_id ≡ p.user_id) × (amount ≡ p.amount_minor) =
      (cc, cc, cc) in
    (
      subst (IsIdentifier input.debt_id) same.0 (required_ok _ _ e),
      subst (IsIdentifier input.user_id) same.1 (required_ok _ _ e'),
      subst (IsAmount input.amount) same.2 (positive_amount_ok _ e''),
    )

-- What the validation of `BulkMark` lets through: the same, and a receiver other than the user.
validate_bulk_mark_input_sound :
    (input : BulkMarkInput) {p : BulkMarkParams}
    → validate_bulk_mark_input input ≡ ok p
    → IsIdentifier input.user_id p.user_id
      × IsIdentifier input.received_by p.received_by
      × IsAmount input.amount p.amount_minor
      × (p.received_by ≢ p.user_id)
unfolding validate_bulk_mark_input
validate_bulk_mark_input_sound input {p} h =
    let (user_id, e, h1) = bind_ok (required input.user_id invalid_user_id) _ h in
    let (received_by, e', h2) = bind_ok (required input.received_by invalid_receiver_id) _ h1 in
    let (_, other, h3) = bind_ok (fail_if (text_eq received_by user_id) forbidden) _ h2 in
    let (amount, e'', h4) = bind_ok (positive_amount input.amount) _ h3 in
    let apart : text_eq received_by user_id ≡ false = ground arith in
    let same : (user_id ≡ p.user_id) × (received_by ≡ p.received_by) × (amount ≡ p.amount_minor) =
      (cc, cc, cc) in
    (
      subst (IsIdentifier input.user_id) same.0 (required_ok _ _ e),
      subst (IsIdentifier input.received_by) same.1 (required_ok _ _ e'),
      subst (IsAmount input.amount) same.2 (positive_amount_ok _ e''),
      λ clash.
          let twin : received_by ≡ user_id = cc in
          let equal : text_eq received_by user_id ≡ true = rw twin (text_eq_refl user_id) in cc,
    )

pub reject_not_confirm : text_eq (lit "reject") (lit "confirm") ≡ false
unfolding text_eq
reject_not_confirm = refl
