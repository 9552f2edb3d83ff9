-- ===== src/Payments/Tests.antt =====
-- Runs of the payments component on the sample ledger.
use mlakp_backend.Base.{◌≡◌, ◌≢◌, refl, true, none, List, [], Result, ok, err, length}
use mlakp_backend.Text.{lit, text_eq, trim_space, byte_length, utf8_size, cut, contains_char}
use mlakp_backend.Decimal.{parse_int}
use mlakp_backend.Money.{
  is_digits, pad_zeros, amount_parts, minor_of_parts, parse_minor, validate_positive,
}
use mlakp_backend.Store.{exec, transaction}
use mlakp_backend.Sql.Rows.{find_row, any_row, select_rows}
use mlakp_backend.Sql.Payments.{
  sum_amounts, create_payment, older, insert_by_age, sort_by_age,
  list_bulk_payment_debts_for_update, get_payment_with_debt_for_update,
}
use mlakp_backend.Ledger.{IsLedger}
use mlakp_backend.Samples.{steady, scan_first, small_world, small_db-IsLedger}
use mlakp_backend.Payments.{
  MarkInput, MarkParams, BulkMarkInput, BulkMarkParams, ReviewInput, Payment, PaymentError,
  forbidden, invalid_debt_state, amount_exceeds_remaining,
}
use mlakp_backend.Payments.Repository
use mlakp_backend.Payments.Repository.{
  can_mark_payment_for_debt, can_confirm_payment_for_debt, total_available, parse_pair_uuids,
  mark_body, allocate_round, allocate, bulk_mark_body, confirm_body, reject_body,
}
use mlakp_backend.Payments.Repository.Mark.{mark-IsLedger}
use mlakp_backend.Payments.Repository.Review.{confirm-keeps, reject-keeps}
use mlakp_backend.Payments.Repository.Bulk.{bulk_mark-keeps, bulk_mark_amount, sum_created}
use mlakp_backend.Payments.Repository.Errors.{confirm_fits}
use mlakp_backend.Payments.Validation.{
  positive_amount, validate_mark_input, validate_bulk_mark_input,
}
use mlakp_backend.Payments.Validation.Laws.{IsIdentifier, IsAmount, validate_mark_input_sound}
use mlakp_backend.Payments.Service
use mlakp_backend.Payments.Service.Notices.{IsNotified, mark_notices, review_notices}
use mlakp_backend.Payments.Service.Review.{review_dispatch}

abbrev mark_params : MarkParams
mark_params = record { debt_id = lit "H"; user_id = lit "A"; amount_minor = 100; note = none }

abbrev bulk_params : BulkMarkParams
bulk_params = record { user_id = lit "A"; received_by = lit "B"; amount_minor = 250; note = none }

abbrev payments_of : Result PaymentError (List Payment) → List Payment
payments_of (ok ps) = ps
payments_of (err e) = []

mark-IsLedger_example : IsLedger (Repository.mark steady scan_first mark_params small_world).1.db
mark-IsLedger_example = mark-IsLedger steady scan_first mark_params small_world small_db-IsLedger

bulk_mark-keeps_example :
    IsLedger (Repository.bulk_mark steady scan_first bulk_params small_world).1.db
bulk_mark-keeps_example =
    bulk_mark-keeps steady scan_first bulk_params small_world small_db-IsLedger

confirm-keeps_example :
    IsLedger (Repository.confirm steady scan_first (lit "P") (lit "B") small_world).1.db
confirm-keeps_example =
    confirm-keeps steady scan_first (lit "P") (lit "B") small_world small_db-IsLedger

reject-keeps_example :
    IsLedger (Repository.reject steady scan_first (lit "P") (lit "B") small_world).1.db
reject-keeps_example =
    reject-keeps steady scan_first (lit "P") (lit "B") small_world small_db-IsLedger

bulk_run :
    (Repository.bulk_mark steady scan_first bulk_params small_world).0
    ≡ ok (payments_of (Repository.bulk_mark steady scan_first bulk_params small_world).0)
unfolding Repository.bulk_mark bulk_mark_body parse_pair_uuids transaction exec
    list_bulk_payment_debts_for_update select_rows sort_by_age insert_by_age older sum_amounts
    any_row total_available allocate allocate_round create_payment
bulk_run = refl

-- One new payment of 250 against the debt of 300, since the other open debt has one that waits.
bulk_count :
    length (payments_of (Repository.bulk_mark steady scan_first bulk_params small_world).0) ≡ 1
unfolding Repository.bulk_mark bulk_mark_body parse_pair_uuids transaction exec
    list_bulk_payment_debts_for_update select_rows sort_by_age insert_by_age older sum_amounts
    any_row total_available allocate allocate_round create_payment
bulk_count = refl

bulk_mark_amount_example :
    sum_created (payments_of (Repository.bulk_mark steady scan_first bulk_params small_world).0)
    ≡ 250
bulk_mark_amount_example =
    bulk_mark_amount steady scan_first bulk_params small_world small_db-IsLedger bulk_run

-- The payer may not confirm his own payment.
confirm_run :
    (Repository.confirm steady scan_first (lit "P") (lit "A") small_world).0 ≡ err forbidden
unfolding Repository.confirm confirm_body parse_pair_uuids transaction exec
    get_payment_with_debt_for_update find_row
confirm_run = refl

confirm_fits_example : (forbidden ≢ invalid_debt_state) × (forbidden ≢ amount_exceeds_remaining)
confirm_fits_example =
    confirm_fits steady scan_first (lit "P") (lit "A") small_world small_db-IsLedger confirm_run

abbrev mark_input : MarkInput
mark_input = record { debt_id = lit " H"; user_id = lit "A "; amount = lit " 1.5"; note = none }

abbrev bulk_input : BulkMarkInput
bulk_input = record { user_id = lit "A"; received_by = lit "B"; amount = lit "2.50"; note = none }

abbrev review_input : ReviewInput
review_input = record { payment_id = lit "P"; user_id = lit "B"; type = lit " confirm " }

mark_input_run :
    validate_mark_input mark_input
    ≡ ok (record { debt_id = lit "H"; user_id = lit "A"; amount_minor = 150; note = none })
unfolding validate_mark_input positive_amount parse_minor amount_parts minor_of_parts is_digits
    pad_zeros trim_space cut contains_char parse_int byte_length utf8_size validate_positive
mark_input_run = refl

validate_mark_input_sound_example :
    IsIdentifier (lit " H") (lit "H")
    × IsIdentifier (lit "A ") (lit "A")
    × IsAmount (lit " 1.5") 150
validate_mark_input_sound_example = validate_mark_input_sound mark_input mark_input_run

bulk_input_run :
    validate_bulk_mark_input bulk_input ≡ ok (record bulk_params { amount_minor = 250 })
unfolding validate_bulk_mark_input positive_amount parse_minor amount_parts minor_of_parts is_digits
    pad_zeros trim_space cut contains_char parse_int byte_length utf8_size validate_positive text_eq
bulk_input_run = refl

mark_notices_example :
    ((p : Payment)
      → (Service.mark steady scan_first true mark_input small_world).0 ≡ ok p
      → IsNotified p p.received_by
          (lit "payment.marked")
          (lit "Payment waiting for confirmation")
          []
          (Service.mark steady scan_first true mark_input small_world).1.notices)
    × ((e : PaymentError)
        → (Service.mark steady scan_first true mark_input small_world).0 ≡ err e
        → (Service.mark steady scan_first true mark_input small_world).1.notices
          ≡ small_world.notices)
mark_notices_example = mark_notices steady scan_first mark_input small_world

review_notices_example :
    ((p : Payment)
      → (Service.confirm steady scan_first true review_input small_world).0 ≡ ok p
      → IsNotified p p.paid_by
          (lit "payment.confirmed")
          (lit "Payment confirmed")
          []
          (Service.confirm steady scan_first true review_input small_world).1.notices)
    × ((p : Payment)
        → (Service.reject steady scan_first true review_input small_world).0 ≡ ok p
        → IsNotified p p.paid_by
            (lit "payment.rejected")
            (lit "Payment rejected")
            []
            (Service.reject steady scan_first true review_input small_world).1.notices)
    × ((e : PaymentError)
        → (Service.confirm steady scan_first true review_input small_world).0 ≡ err e
        → (Service.confirm steady scan_first true review_input small_world).1.notices
          ≡ small_world.notices)
    × ((e : PaymentError)
        → (Service.reject steady scan_first true review_input small_world).0 ≡ err e
        → (Service.reject steady scan_first true review_input small_world).1.notices
          ≡ small_world.notices)
review_notices_example = review_notices steady scan_first review_input small_world

review_dispatch_example :
    (trim_space review_input.type ≡ lit "confirm"
      → Service.review steady scan_first true review_input small_world
        ≡ Service.confirm steady scan_first true review_input small_world)
    × (trim_space review_input.type ≡ lit "reject"
        → Service.review steady scan_first true review_input small_world
          ≡ Service.reject steady scan_first true review_input small_world)
    × (trim_space review_input.type ≢ lit "confirm"
        → trim_space review_input.type ≢ lit "reject"
        → (e : PaymentError) × (Service.review steady scan_first true review_input small_world
            ≡ (err e, small_world)))
review_dispatch_example = review_dispatch steady scan_first true review_input small_world
