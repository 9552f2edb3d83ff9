-- ===== src/Payments/Service/Review.antt =====
-- `Review` (internal/payments/service.go) beside `Confirm` and `Reject`.
use mlakp_backend.Base.{Option, ◌≡◌, refl, Bool, err, inl, inr, Result-cases, ◌≢◌}
use mlakp_backend.Text.{Text, lit, trim_space}
use mlakp_backend.Text.Laws.{text_eq_refl, text_ne}
use mlakp_backend.Store.{Server, World, Uuid}
use mlakp_backend.Payments.{PaymentError, ReviewInput, invalid_review_type}
use mlakp_backend.Payments.Validation.Laws.{reject_not_confirm}
use mlakp_backend.Payments.Validation.{validate_review_identity, validate_review_input}
use mlakp_backend.Payments.Service.{confirm, reject, review}

module _ (s : Server) (scan : Text → Option Uuid) (has_notifier : Bool) where
  -- `Review` does what `Confirm` does for the type "confirm" and what `Reject` does for "reject",
  -- white space around it aside; any other type is an error that changes nothing.
  pub review_dispatch :
      (input : ReviewInput) (w : World)
      → (trim_space input.type ≡ lit "confirm"
          → review s scan has_notifier input w ≡ confirm s scan has_notifier input w)
        × (trim_space input.type ≡ lit "reject"
            → review s scan has_notifier input w ≡ reject s scan has_notifier input w)
        × (trim_space input.type ≢ lit "confirm"
            → trim_space input.type ≢ lit "reject"
            → (e : PaymentError) × (review s scan has_notifier input w ≡ (err e, w)))
  unfolding review confirm reject validate_review_input
  review_dispatch input w = elim (Result-cases (validate_review_identity input)) [
    | inl (ids, e) ↦ (
      λ t. rw (e, t, text_eq_refl (lit "confirm")) refl,
      λ t. rw (e, t, reject_not_confirm, text_eq_refl (lit "reject")) refl,
      λ a b.
          let not_confirm = text_ne (trim_space input.type) (lit "confirm") a in
          let not_reject = text_ne (trim_space input.type) (lit "reject") b in
          rw (e, not_confirm, not_reject) (invalid_review_type, refl),
    )
    | inr (x, e) ↦ (λ t. rw e refl, λ t. rw e refl, λ a b. rw e (x, refl))
  ]
