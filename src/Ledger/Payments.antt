-- ===== src/Ledger/Payments.antt =====
-- The statement that creates a payment against the ledger.
use mlakp_backend.Base.{
  ℕ, ◌+◌, ◌≤◌, ◌<◌, ◌≡◌, subst, sym, true, false, List, [], ◌∷◌, All, ◌==◌, arith, some, Bool-cases,
  inl, inr, ok, ==→eq,
}
use mlakp_backend.Store.{Uuid, Time, Db, DebtRow, PaymentRow}
use mlakp_backend.Sql.Rows.{any_row, find_row, find_row_sound, any_row_of_find}
use mlakp_backend.Sql.Debts.{debt_has_id, is_open}
use mlakp_backend.Sql.Payments.{
  sum_amounts, awaits_for, CreatePaymentParams, new_payment, create_payment, payment_has_id,
}
use mlakp_backend.Ledger.{IsLedger, IsBalanced, settles}
use mlakp_backend.Ledger.Sums.{only_debt}

-- The debt may take a payment of the amount.
abbrev pub HasRoom : List PaymentRow → ℕ → DebtRow → Type 0
HasRoom payments amount d =
    (is_open d.status ≡ true)
    × (sum_amounts (awaits_for d.id) payments + amount ≤ d.remaining_amount_minor)

new_payment-IsBalanced :
    (arg : CreatePaymentParams) (id : Uuid) (now : Time) (payments : List PaymentRow) (d : DebtRow)
    → IsBalanced payments d
    → (d.id ≡ arg.debt_id → HasRoom payments arg.amount_minor d)
    → IsBalanced (new_payment arg id now ∷ payments) d
unfolding sum_amounts
new_payment-IsBalanced arg id now payments d b room = elim (Bool-cases (arg.debt_id == d.id)) [
  | inl e ↦
      let (open_debt, fits) = room (ground arith) in
      record {
        positive = b.positive;
        parties = b.parties;
        conserved = rw e (omega (arith, b.conserved));
        reserved = rw e (omega arith);
        quiet = λ shut. absurd (cc);
        fits = b.fits;
      }
  | inr e ↦ record {
    positive = b.positive;
    parties = b.parties;
    conserved = rw e (omega (arith, b.conserved));
    reserved = rw e (omega (arith, b.reserved));
    quiet = λ shut. rw e (omega (arith, b.quiet shut));
    fits = b.fits;
  }
]

All-with_new :
    (arg : CreatePaymentParams) (id : Uuid) (now : Time) (payments : List PaymentRow)
    (debts : List DebtRow) (d : DebtRow)
    → All (IsBalanced payments) debts
    → All (λ e. e.id ≡ arg.debt_id → e ≡ d) debts
    → HasRoom payments arg.amount_minor d
    → All (IsBalanced (new_payment arg id now ∷ payments)) debts
All-with_new arg id now payments [] d all one room = tt
All-with_new arg id now payments (e ∷ debts) d (b, all) (same, one) room = (
  new_payment-IsBalanced arg id now payments e b
      (λ q. subst (HasRoom payments arg.amount_minor) (sym (same q)) room),
  All-with_new arg id now payments debts d all one room,
)

pub create_payment_ok :
    (arg : CreatePaymentParams) (id : Uuid) (now : Time) (db : Db) {p : PaymentRow} {db' : Db}
    → create_payment arg id now db ≡ ok (p, db')
    → (any_row (payment_has_id id) db.payments ≡ false)
      × (0 < arg.amount_minor)
      × (p ≡ new_payment arg id now)
      × (record db { payments = new_payment arg id now ∷ db.payments } ≡ db')
unfolding create_payment
create_payment_ok arg id now db h = ground arith

pub create_payment-IsLedger :
    (arg : CreatePaymentParams) (id : Uuid) (now : Time) (db : Db) {p : PaymentRow} {db' : Db}
    (d : DebtRow)
    → IsLedger db
    → find_row (debt_has_id arg.debt_id) db.debts ≡ some d
    → HasRoom db.payments arg.amount_minor d
    → arg.paid_by ≡ d.debtor_id
    → arg.received_by ≡ d.creditor_id
    → create_payment arg id now db ≡ ok (p, db')
    → IsLedger db'
create_payment-IsLedger arg id now db d v found room payer receiver h =
    let (new, amount, _, same) = create_payment_ok arg id now db h in
    let key : d.id ≡ arg.debt_id =
      ==→eq d.id arg.debt_id (find_row_sound (debt_has_id arg.debt_id) db.debts found) in
    let backs : settles (new_payment arg id now) d ≡ true = ground arith in
    subst IsLedger same (record {
      balanced =
          All-with_new arg id now db.payments db.debts d v.balanced
            (only_debt arg.debt_id db.debts v.debt_keys found) room;
      backed = (
        (
          amount,
          any_row_of_find (debt_has_id arg.debt_id) (settles (new_payment arg id now)) db.debts
              found backs,
        ),
        v.backed,
      );
      debt_keys = v.debt_keys;
      payment_keys = (new, v.payment_keys);
    })
