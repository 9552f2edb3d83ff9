-- ===== src/Payments/Service/Laws.antt =====
-- The service of internal/payments/service.go against the ledger.
use mlakp_backend.Base.{Option, Bool, List, [], ◌∷◌, Bool-cases, inl, inr}
use mlakp_backend.Text.{Text, lit, text_eq}
use mlakp_backend.Store.{Server, Uuid, notify, ◌>>=◌, pure}
use mlakp_backend.Store.Keeps.{
  Keeps, bind-Keeps, notify-Keeps, pure-Keeps, validated-Keeps, and_notify-Keeps,
}
use mlakp_backend.Ledger.{IsLedger}
use mlakp_backend.Payments.{Payment, MarkInput, BulkMarkInput, ReviewInput}
use mlakp_backend.Payments.Repository
use mlakp_backend.Payments.Repository.{
  parse_pair_uuids, mark_body, allocate, allocate_round, bulk_mark_body, confirm_body, reject_body,
}
use mlakp_backend.Payments.Repository.Mark.{mark-IsLedger}
use mlakp_backend.Payments.Repository.Review.{confirm-keeps, reject-keeps}
use mlakp_backend.Payments.Repository.Bulk.{bulk_mark-keeps}
use mlakp_backend.Payments.Validation.{
  validate_mark_input, validate_bulk_mark_input, validate_review_identity, validate_review_input,
}
use mlakp_backend.Payments.Service.{
  mark, bulk_mark, notify_all, review_payment, confirm, reject, review, marked_notice,
  confirmed_notice, rejected_notice, confirm_payment, reject_payment,
}

module _ (s : Server) (scan : Text → Option Uuid) (has_notifier : Bool) where
  pub mark-Keeps : (input : MarkInput) → Keeps IsLedger (mark s scan has_notifier input)
  unfolding mark
  mark-Keeps input = validated-Keeps (validate_mark_input input) _ (λ params.
      and_notify-Keeps (Repository.mark s scan params) has_notifier marked_notice
        (record { at = λ w v. mark-IsLedger s scan params w v }))

  notify_all-Keeps :
      (payments : List Payment) → Keeps IsLedger (notify_all s scan has_notifier payments)
  unfolding notify_all
  notify_all-Keeps [] = pure-Keeps tt
  notify_all-Keeps (payment ∷ payments) =
      bind-Keeps {f = λ _. notify_all s scan has_notifier payments}
        {m = notify has_notifier (marked_notice payment)}
        (notify-Keeps has_notifier (marked_notice payment)) (λ _. notify_all-Keeps payments)

  pub bulk_mark-Keeps :
      (input : BulkMarkInput) → Keeps IsLedger (bulk_mark s scan has_notifier input)
  unfolding bulk_mark
  bulk_mark-Keeps input = validated-Keeps (validate_bulk_mark_input input) _ (λ params.
      bind-Keeps {f = λ payments. notify_all s scan has_notifier payments >>= λ _. pure payments}
        {m = Repository.bulk_mark s scan params}
        (record { at = λ w v. bulk_mark-keeps s scan params w v })
        (λ payments.
          bind-Keeps {f = λ _. pure payments} {m = notify_all s scan has_notifier payments}
            (notify_all-Keeps payments) (λ _. pure-Keeps payments)))

  confirm_payment-Keeps :
      (payment_id user_id : Text)
      → Keeps IsLedger (confirm_payment s scan has_notifier payment_id user_id)
  confirm_payment-Keeps payment_id user_id =
      and_notify-Keeps (Repository.confirm s scan payment_id user_id) has_notifier confirmed_notice
        (record { at = λ w v. confirm-keeps s scan payment_id user_id w v })

  reject_payment-Keeps :
      (payment_id user_id : Text)
      → Keeps IsLedger (reject_payment s scan has_notifier payment_id user_id)
  reject_payment-Keeps payment_id user_id =
      and_notify-Keeps (Repository.reject s scan payment_id user_id) has_notifier rejected_notice
        (record { at = λ w v. reject-keeps s scan payment_id user_id w v })

  review_payment-Keeps :
      (payment_id user_id review_type : Text)
      → Keeps IsLedger (review_payment s scan has_notifier payment_id user_id review_type)
  unfolding review_payment
  review_payment-Keeps payment_id user_id review_type =
      elim (Bool-cases (text_eq review_type (lit "confirm"))) [
        | inl e ↦ rw e (confirm_payment-Keeps payment_id user_id)
        | inr e ↦ elim (Bool-cases (text_eq review_type (lit "reject"))) [
          | inl f ↦ rw (e, f) (reject_payment-Keeps payment_id user_id)
          | inr f ↦ rw (e, f) (record { at = λ w v. v })
        ]
      ]

  pub review-Keeps : (input : ReviewInput) → Keeps IsLedger (review s scan has_notifier input)
  unfolding review
  review-Keeps input =
      validated-Keeps (validate_review_input input) _
        (λ ids. review_payment-Keeps ids.0 ids.1 ids.2)

  pub confirm-Keeps : (input : ReviewInput) → Keeps IsLedger (confirm s scan has_notifier input)
  unfolding confirm
  confirm-Keeps input =
      validated-Keeps (validate_review_identity input) _
        (λ ids. review_payment-Keeps ids.0 ids.1 (lit "confirm"))

  pub reject-Keeps : (input : ReviewInput) → Keeps IsLedger (reject s scan has_notifier input)
  unfolding reject
  reject-Keeps input =
      validated-Keeps (validate_review_identity input) _
        (λ ids. review_payment-Keeps ids.0 ids.1 (lit "reject"))
