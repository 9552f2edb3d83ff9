-- ===== src/Ledger/Review.antt =====
-- The sums of the payments of a debt under a confirmation and a rejection.
use mlakp_backend.Base.{
  ℕ, ◌+◌, ◌-◌, ◌≤◌, ◌<◌, ◌≡◌, ◌≢◌, refl, ap, true, false, List, [], ◌∷◌, ◌==◌, arith, some,
  Bool-cases, inl, inr, if◌then◌else◌, ==→eq,
}
use mlakp_backend.Store.{
  Uuid, Time, DebtRow, PaymentStatus, PaymentRow, pending_confirmation, confirmed,
}
use mlakp_backend.Sql.Rows.{find_row, update_rows}
use mlakp_backend.Sql.Debts.{is_open}
use mlakp_backend.Sql.Payments.{
  sum_amounts, awaits_for, awaits, is_confirmed, payment_has_id, may_review, confirm_row,
  reject_payment_row, apply_row,
}
use mlakp_backend.Ledger.{PaymentKeys, IsBalanced, confirmed_for}
use mlakp_backend.Ledger.Sums.{sum-update}

-- A payment that awaits confirmation is a part of the sum for its debt.
pub awaits-le-sum :
    (pid : Uuid) (payments : List PaymentRow) {p : PaymentRow}
    → find_row (payment_has_id pid) payments ≡ some p
    → awaits p.status ≡ true
    → p.amount_minor ≤ sum_amounts (awaits_for p.debt_id) payments
unfolding find_row sum_amounts
awaits-le-sum pid [] h w = absurd (cc)
awaits-le-sum pid (x ∷ payments) {p} h w = elim (Bool-cases (x.id == pid)) [
  | inl e ↦
      let same : x ≡ p = ground arith in
      rw (← same) (ground (arith, ap (λ (z : PaymentRow). z.status) same))
  | inr e ↦ omega (arith, awaits-le-sum pid payments {p = p} (ground arith) w)
]

awaits-not_confirmed : (s : PaymentStatus) → awaits s ≡ true → is_confirmed s ≡ false
awaits-not_confirmed pending_confirmation h = refl
awaits-not_confirmed confirmed h = cc
awaits-not_confirmed PaymentStatus.rejected h = refl

-- The debt that the payment is taken off.
pub apply_row-IsBalanced :
    (payments payments' : List PaymentRow) (amount : ℕ) (now : Time) (d : DebtRow)
    → IsBalanced payments d
    → 0 < amount
    → is_open d.status ≡ true
    → amount ≤ d.remaining_amount_minor
    → sum_amounts (confirmed_for d.id) payments'
      ≡ sum_amounts (confirmed_for d.id) payments + amount
    → sum_amounts (awaits_for d.id) payments' + amount ≡ sum_amounts (awaits_for d.id) payments
    → IsBalanced payments' (apply_row amount now d)
apply_row-IsBalanced payments payments' amount now d b p open_debt covered paid waiting =
    elim (Bool-cases (d.remaining_amount_minor - amount == 0)) [
      | inl e ↦ record {
        positive = b.positive;
        parties = b.parties;
        conserved = omega (arith, b.conserved);
        reserved = omega (arith, b.reserved);
        quiet = λ _. omega (arith, b.reserved, ==→eq _ _ e);
        fits = rw e (==→eq _ _ e);
      }
      | inr e ↦ record {
        positive = b.positive;
        parties = b.parties;
        conserved = omega (arith, b.conserved);
        reserved = omega (arith, b.reserved);
        quiet = rw e (λ shut. absurd (cc));
        fits = rw e (
            let left : d.remaining_amount_minor - amount ≢ 0 = λ q. ground arith in
            (omega arith, omega (arith, b.conserved)));
      }
    ]

-- Another debt, whose sums are as they were.
pub same_sums :
    (payments payments' : List PaymentRow) (d : DebtRow)
    → IsBalanced payments d
    → sum_amounts (confirmed_for d.id) payments' ≡ sum_amounts (confirmed_for d.id) payments
    → sum_amounts (awaits_for d.id) payments' ≤ sum_amounts (awaits_for d.id) payments
    → IsBalanced payments' d
same_sums payments payments' d b paid waiting = record {
  positive = b.positive;
  parties = b.parties;
  conserved = omega (arith, b.conserved);
  reserved = omega (arith, b.reserved);
  quiet = λ shut. omega (arith, b.quiet shut);
  fits = b.fits;
}

module _ (pid : Uuid) (payments : List PaymentRow) {p : PaymentRow} (now : Time)
    (keys : PaymentKeys payments) (found : find_row (payment_has_id pid) payments ≡ some p)
    (waits : awaits p.status ≡ true) where
  abbrev pub confirmed_payments : List PaymentRow
  confirmed_payments = update_rows (may_review pid) (confirm_row now) payments

  abbrev pub rejected_payments : List PaymentRow
  rejected_payments = update_rows (may_review pid) (reject_payment_row now) payments

  not_confirmed : is_confirmed p.status ≡ false
  not_confirmed = awaits-not_confirmed p.status waits

  pub confirm_sums :
      (debt_id : Uuid)
      → (sum_amounts (confirmed_for debt_id) confirmed_payments
          ≡ sum_amounts (confirmed_for debt_id) payments
            + (if p.debt_id == debt_id then p.amount_minor else 0))
        × (sum_amounts (awaits_for debt_id) confirmed_payments
              + (if p.debt_id == debt_id then p.amount_minor else 0)
            ≡ sum_amounts (awaits_for debt_id) payments)
  confirm_sums debt_id = (
    ground (
      arith,
      not_confirmed,
      sum-update (confirm_row now) pid (confirmed_for debt_id) payments keys found waits,
    ),
    ground (arith, sum-update (confirm_row now) pid (awaits_for debt_id) payments keys found waits),
  )

  pub reject_sums :
      (debt_id : Uuid)
      → (sum_amounts (confirmed_for debt_id) rejected_payments
          ≡ sum_amounts (confirmed_for debt_id) payments)
        × (sum_amounts (awaits_for debt_id) rejected_payments
            ≤ sum_amounts (awaits_for debt_id) payments)
  reject_sums debt_id = (
    ground (
      arith,
      not_confirmed,
      sum-update (reject_payment_row now) pid (confirmed_for debt_id) payments keys found waits,
    ),
    ground (
      arith,
      sum-update (reject_payment_row now) pid (awaits_for debt_id) payments keys found waits,
    ),
  )
