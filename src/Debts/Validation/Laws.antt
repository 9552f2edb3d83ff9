-- ===== src/Debts/Validation/Laws.antt =====
-- What the validation of a debt's review lets through.
use mlakp_backend.Base.{
  ◌≡◌, ℕ, zero, suc, ◌<◌, true, Option, none, some, ok, Result-cases, inl, inr, arith, bind_ok,
  subst,
}
use mlakp_backend.Text.{Text}
use mlakp_backend.Money.{parse_minor, validate_positive}
use mlakp_backend.Debts.{
  ReviewRejectedInput, ReviewRejectedParams, invalid_debt_id, invalid_user_id,
}
use mlakp_backend.Debts.Repository.{has_adjusted_amount, adjusted_amount}
use mlakp_backend.Debts.Validation.{required, adjusted, validate_review_rejected_input}

IsPositive : Option ℕ → Type 0
IsPositive a = has_adjusted_amount a ≡ true → 0 < adjusted_amount a

adjusted_ok : (t : Option Text) {a : Option ℕ} → adjusted t ≡ ok a → IsPositive a
unfolding adjusted IsPositive validate_positive
adjusted_ok none {a} h = let same : a ≡ none = cc in rw same (λ e. absurd (cc))
adjusted_ok (some text) {a} h = elim (Result-cases (parse_minor text)) [
  | inr (x, e) ↦ absurd (ground arith)
  | inl (zero, e) ↦ absurd (ground arith)
  | inl (suc n, e) ↦ let same : a ≡ some (suc n) = ground arith in rw same (λ _. omega arith)
]

-- An adjusted amount that is let through is positive.
pub adjusted_positive :
    (input : ReviewRejectedInput) {p : ReviewRejectedParams}
    → validate_review_rejected_input input ≡ ok p
    → has_adjusted_amount p.amount_minor ≡ true
    → 0 < adjusted_amount p.amount_minor
unfolding validate_review_rejected_input IsPositive
adjusted_positive input {p} h =
    let (debt_id, e, h1) = bind_ok (required input.debt_id invalid_debt_id) _ h in
    let (reviewer_id, e', h2) = bind_ok (required input.reviewer_id invalid_user_id) _ h1 in
    let (amount, e'', h3) = bind_ok (adjusted input.amount) _ h2 in
    let same : amount ≡ p.amount_minor = cc in subst IsPositive same (adjusted_ok input.amount e'')
