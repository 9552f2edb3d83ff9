-- ===== src/Payments/Service/Notices.antt =====
-- The notices of `Mark`, `Confirm` and `Reject` (internal/payments/service.go).
use mlakp_backend.Base.{
  Option, List, ◌≡◌, refl, true, ◌∷◌, ok, err, inl, inr, Result-cases, not, ltb, ◌==◌, ◌-◌,
}
use mlakp_backend.Text.{Text, lit}
use mlakp_backend.Text.Laws.{text_eq_refl}
use mlakp_backend.Store.{Server, World, Uuid, Notice}
use mlakp_backend.Store.Keeps.{
  IsSilent, bind-IsSilent, lift-IsSilent, on_error-IsSilent, exec-IsSilent, throw_if-IsSilent,
  pure-IsSilent, transaction-IsSilent, notified, not_notified,
}
use mlakp_backend.Sql.Payments.{
  get_debt_for_payment_mark, get_payment_with_debt_for_update, create_payment,
  apply_confirmed_payment_to_debt, awaits, confirm_payment, reject_payment,
}
use mlakp_backend.Payments.{
  PaymentError, Payment, payment_from_sqlc, MarkInput, MarkParams, ReviewInput, other,
  not_found_or_other, any_error, invalid_payment_id, invalid_user_id, invalid_debt_id, forbidden,
  invalid_debt_state, pending_payment_exists, amount_exceeds_remaining, invalid_payment_state,
}
use mlakp_backend.Payments.Repository
use mlakp_backend.Payments.Repository.{
  parse_pair_uuids, mark_body, allocate, allocate_round, bulk_mark_body, confirm_body, reject_body,
  can_mark_payment_for_debt, can_confirm_payment_for_debt,
}
use mlakp_backend.Payments.Validation.Laws.{reject_not_confirm}
use mlakp_backend.Payments.Validation.{validate_mark_input, validate_review_identity}
use mlakp_backend.Payments.Service.{
  mark, review_payment, confirm, reject, marked_notice, confirmed_notice, rejected_notice,
}

-- One more notice than before: to the user, of the type and the title, about the payment.
abbrev pub IsNotified : Payment → Text → Text → Text → List Notice → List Notice → Type 0
IsNotified p user_id type title before after =
    (n : Notice) × (after ≡ n ∷ before)
    × (n.user_id ≡ user_id)
    × (n.type ≡ type)
    × (n.title ≡ title)
    × (n.entity_type ≡ lit "payment")
    × (n.entity_id ≡ p.id)

module _ (s : Server) (scan : Text → Option Uuid) where
  mark-IsSilent : (params : MarkParams) → IsSilent (Repository.mark s scan params)
  unfolding Repository.mark mark_body
  mark-IsSilent params =
      bind-IsSilent
        (lift-IsSilent
          (parse_pair_uuids s scan params.debt_id params.user_id invalid_debt_id invalid_user_id))
        (λ ids. transaction-IsSilent s other (
          bind-IsSilent
            (on_error-IsSilent not_found_or_other
              (exec-IsSilent s (get_debt_for_payment_mark ids.0)))
            (λ debt.
              bind-IsSilent (throw_if-IsSilent (not (debt.debtor_id == ids.1)) forbidden) (λ _.
                bind-IsSilent
                  (throw_if-IsSilent (not (can_mark_payment_for_debt debt.status))
                    invalid_debt_state)
                  (λ _.
                    bind-IsSilent
                      (throw_if-IsSilent (ltb 0 debt.pending_amount_minor) pending_payment_exists)
                      (λ _.
                        bind-IsSilent
                          (throw_if-IsSilent
                            (ltb (debt.remaining_amount_minor - debt.pending_amount_minor)
                              params.amount_minor)
                            amount_exceeds_remaining)
                          (λ _.
                            bind-IsSilent
                              (on_error-IsSilent any_error (
                                exec-IsSilent s (
                                  create_payment (record {
                                    debt_id = ids.0;
                                    paid_by = ids.1;
                                    received_by = debt.creditor_id;
                                    amount_minor = params.amount_minor;
                                    note = params.note;
                                  }))))
                              (λ payment. pure-IsSilent (payment_from_sqlc payment)))))))))

  confirm-IsSilent :
      (payment_id user_id : Text) → IsSilent (Repository.confirm s scan payment_id user_id)
  unfolding Repository.confirm confirm_body
  confirm-IsSilent payment_id user_id =
      bind-IsSilent
        (lift-IsSilent
          (parse_pair_uuids s scan payment_id user_id invalid_payment_id invalid_user_id))
        (λ ids. transaction-IsSilent s other (
          bind-IsSilent
            (on_error-IsSilent not_found_or_other
              (exec-IsSilent s (get_payment_with_debt_for_update ids.0)))
            (λ found.
              bind-IsSilent (throw_if-IsSilent (not (found.payment.received_by == ids.1)) forbidden)
                (λ _.
                  bind-IsSilent
                    (throw_if-IsSilent (not (awaits found.payment.status)) invalid_payment_state)
                    (λ _.
                      bind-IsSilent
                        (throw_if-IsSilent (not (can_confirm_payment_for_debt found.debt_status))
                          invalid_debt_state)
                        (λ _.
                          bind-IsSilent
                            (throw_if-IsSilent
                              (ltb found.debt_remaining_amount_minor found.payment.amount_minor)
                              amount_exceeds_remaining)
                            (λ _.
                              bind-IsSilent
                                (on_error-IsSilent any_error (
                                  exec-IsSilent s (
                                    apply_confirmed_payment_to_debt found.payment.debt_id
                                      found.payment.amount_minor)))
                                (λ _.
                                  bind-IsSilent
                                    (on_error-IsSilent any_error
                                      (exec-IsSilent s (confirm_payment ids.0)))
                                    (λ p. pure-IsSilent (payment_from_sqlc p))))))))))

  reject-IsSilent :
      (payment_id user_id : Text) → IsSilent (Repository.reject s scan payment_id user_id)
  unfolding Repository.reject reject_body
  reject-IsSilent payment_id user_id =
      bind-IsSilent
        (lift-IsSilent
          (parse_pair_uuids s scan payment_id user_id invalid_payment_id invalid_user_id))
        (λ ids. transaction-IsSilent s other (
          bind-IsSilent
            (on_error-IsSilent not_found_or_other
              (exec-IsSilent s (get_payment_with_debt_for_update ids.0)))
            (λ found.
              bind-IsSilent (throw_if-IsSilent (not (found.payment.received_by == ids.1)) forbidden)
                (λ _.
                  bind-IsSilent
                    (throw_if-IsSilent (not (awaits found.payment.status)) invalid_payment_state)
                    (λ _.
                      bind-IsSilent
                        (on_error-IsSilent any_error (exec-IsSilent s (reject_payment ids.0)))
                        (λ p. pure-IsSilent (payment_from_sqlc p)))))))

  -- With a notifier, a payment that `Mark` returns gives one more notice: to the user who receives
  -- the payment, about this payment, with the type payment.marked and the title that it waits for
  -- confirmation. An error gives none.
  pub mark_notices :
      (input : MarkInput) (w : World)
      → ((p : Payment)
          → (mark s scan true input w).0 ≡ ok p
          → IsNotified p p.received_by
              (lit "payment.marked")
              (lit "Payment waiting for confirmation")
              w.notices
              (mark s scan true input w).1.notices)
        × ((e : PaymentError)
            → (mark s scan true input w).0 ≡ err e
            → (mark s scan true input w).1.notices ≡ w.notices)
  unfolding mark
  mark_notices input w = elim (Result-cases (validate_mark_input input)) [
    | inl (params, e) ↦ rw e (
      λ p h. (
        marked_notice p,
        notified marked_notice (Repository.mark s scan params) (mark-IsSilent params) w h,
        refl,
        refl,
        refl,
        refl,
        refl,
      ),
      λ x h. not_notified marked_notice (Repository.mark s scan params) (mark-IsSilent params) w h,
    )
    | inr (x, e) ↦ rw e (λ p h. absurd (cc), λ x h. refl)
  ]

  -- With a notifier, a payment that `Confirm` returns gives one more notice: to the user who paid,
  -- about this payment, with the type payment.confirmed and the title of a confirmation; one that
  -- `Reject` returns, in the same way, with the type payment.rejected and the title of a rejection.
  -- An error of either gives none.
  pub review_notices :
      (input : ReviewInput) (w : World)
      → ((p : Payment)
          → (confirm s scan true input w).0 ≡ ok p
          → IsNotified p p.paid_by
              (lit "payment.confirmed")
              (lit "Payment confirmed")
              w.notices
              (confirm s scan true input w).1.notices)
        × ((p : Payment)
            → (reject s scan true input w).0 ≡ ok p
            → IsNotified p p.paid_by
                (lit "payment.rejected")
                (lit "Payment rejected")
                w.notices
                (reject s scan true input w).1.notices)
        × ((e : PaymentError)
            → (confirm s scan true input w).0 ≡ err e
            → (confirm s scan true input w).1.notices ≡ w.notices)
        × ((e : PaymentError)
            → (reject s scan true input w).0 ≡ err e
            → (reject s scan true input w).1.notices ≡ w.notices)
  unfolding confirm reject review_payment
  review_notices input w = elim (Result-cases (validate_review_identity input)) [
    | inl ((payment_id, user_id), e) ↦
        let accept = confirm-IsSilent payment_id user_id in
        let refuse = reject-IsSilent payment_id user_id in
        rw (e, text_eq_refl (lit "confirm"), reject_not_confirm, text_eq_refl (lit "reject"))
          (
            λ p h. (
              confirmed_notice p,
              notified confirmed_notice (Repository.confirm s scan payment_id user_id) accept w h,
              refl,
              refl,
              refl,
              refl,
              refl,
            ),
            λ p h. (
              rejected_notice p,
              notified rejected_notice (Repository.reject s scan payment_id user_id) refuse w h,
              refl,
              refl,
              refl,
              refl,
              refl,
            ),
            λ x h.
                not_notified confirmed_notice (Repository.confirm s scan payment_id user_id) accept
                  w h,
            λ x h.
                not_notified rejected_notice (Repository.reject s scan payment_id user_id) refuse w
                  h,
          )
    | inr (x, e) ↦ rw e (λ p h. absurd (cc), λ p h. absurd (cc), λ x h. refl, λ x h. refl)
  ]
