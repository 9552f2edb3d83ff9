-- ===== src/Payments/Service.antt =====
-- internal/payments/service.go: the service. Whether it has a notifier is a parameter.
pub mod Laws
pub mod Notices
pub mod Review
use mlakp_backend.Base.{Option, Bool, true, false, List, [], ◌∷◌, if◌then◌else◌, Result, ok, err}
use mlakp_backend.Text.{Text, lit, text_eq}
use mlakp_backend.Store.{Server, Action, Uuid, Notice, pure, throw, lift, notify, ◌>>=◌, ◌>>◌}
use mlakp_backend.Payments.{
  PaymentError, Payment, MarkInput, BulkMarkInput, ReviewInput, invalid_review_type,
}
use mlakp_backend.Payments.Repository
use mlakp_backend.Payments.Validation.{
  validate_mark_input, validate_bulk_mark_input, validate_review_identity, validate_review_input,
}

-- The input of `notifyPaymentMarked`.
abbrev pub marked_notice : Payment → Notice
marked_notice payment = record {
  user_id = payment.received_by;
  type = lit "payment.marked";
  title = lit "Payment waiting for confirmation";
  body = lit "A payment was submitted and needs your review.";
  entity_type = lit "payment";
  entity_id = payment.id;
}

abbrev pub confirmed_notice : Payment → Notice
confirmed_notice payment = record {
  user_id = payment.paid_by;
  type = lit "payment.confirmed";
  title = lit "Payment confirmed";
  body = lit "Your payment was confirmed.";
  entity_type = lit "payment";
  entity_id = payment.id;
}

abbrev pub rejected_notice : Payment → Notice
rejected_notice payment = record {
  user_id = payment.paid_by;
  type = lit "payment.rejected";
  title = lit "Payment rejected";
  body = lit "Your payment was rejected.";
  entity_type = lit "payment";
  entity_id = payment.id;
}

module _ (s : Server) (scan : Text → Option Uuid) (has_notifier : Bool) where
  -- `Service.Mark`
  unfoldable pub mark : MarkInput → Action PaymentError Payment
  mark input = do
    params ← lift (validate_mark_input input)
    payment ← Repository.mark s scan params
    notify has_notifier (marked_notice payment)
    pure payment

  -- `for _, payment := range payments { s.notifyPaymentMarked(ctx, payment) }`
  unfoldable pub notify_all : List Payment → Action PaymentError (Unit {0})
  notify_all [] = pure tt
  notify_all (payment ∷ payments) = do
    notify has_notifier (marked_notice payment)
    notify_all payments

  -- `Service.BulkMark`
  unfoldable pub bulk_mark : BulkMarkInput → Action PaymentError (List Payment)
  bulk_mark input = do
    params ← lift (validate_bulk_mark_input input)
    payments ← Repository.bulk_mark s scan params
    notify_all payments
    pure payments

  abbrev pub confirm_payment : Text → Text → Action PaymentError Payment
  confirm_payment payment_id user_id = do
    payment ← Repository.confirm s scan payment_id user_id
    notify has_notifier (confirmed_notice payment)
    pure payment

  abbrev pub reject_payment : Text → Text → Action PaymentError Payment
  reject_payment payment_id user_id = do
    payment ← Repository.reject s scan payment_id user_id
    notify has_notifier (rejected_notice payment)
    pure payment

  -- `reviewPayment`
  unfoldable pub review_payment : Text → Text → Text → Action PaymentError Payment
  review_payment payment_id user_id review_type =
      if text_eq review_type (lit "confirm")
      then confirm_payment payment_id user_id
      else if text_eq review_type (lit "reject")
      then reject_payment payment_id user_id
      else throw invalid_review_type

  -- `Service.Confirm`
  unfoldable pub confirm : ReviewInput → Action PaymentError Payment
  confirm input = do
    ids ← lift (validate_review_identity input)
    review_payment ids.0 ids.1 (lit "confirm")

  -- `Service.Reject`
  unfoldable pub reject : ReviewInput → Action PaymentError Payment
  reject input = do
    ids ← lift (validate_review_identity input)
    review_payment ids.0 ids.1 (lit "reject")

  -- `Service.Review`
  unfoldable pub review : ReviewInput → Action PaymentError Payment
  review input = do ids ← lift (validate_review_input input); review_payment ids.0 ids.1 ids.2
