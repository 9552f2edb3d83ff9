-- ===== src/Sql/Payments.antt =====
-- internal/postgres/sqlc/payments.sql.go: the statements on `payments`, and those on `debts` that
-- a payment runs. `FOR UPDATE` locks are not visible here: statements of one transaction are not
-- interleaved with another's.
use mlakp_backend.Base.{
  ℕ, ◌+◌, ◌-◌, Bool, true, false, ◌&&◌, ◌||◌, not, Option, none, some, List, [], ◌∷◌, Result, ok,
  err, ◌==◌, ltb, leb, if◌then◌else◌,
}
use mlakp_backend.Text.{Text}
use mlakp_backend.Decimal.{max_int64}
use mlakp_backend.Store.{
  Query, SqlError, no_rows, failed, Uuid, Time, Db, DebtStatus, DebtRow, PaymentStatus, PaymentRow,
  partially_settled, settled, pending_confirmation, confirmed,
}
use mlakp_backend.Sql.Rows.{find_row, update_rows, any_row, select_rows}
use mlakp_backend.Sql.Debts.{debt_has_id, is_open, update_debt, insert_if}

abbrev pub awaits : PaymentStatus → Bool
awaits pending_confirmation = true
awaits confirmed = false
awaits PaymentStatus.rejected = false

abbrev pub is_confirmed : PaymentStatus → Bool
is_confirmed pending_confirmation = false
is_confirmed confirmed = true
is_confirmed PaymentStatus.rejected = false

abbrev pub payment_has_id : Uuid → PaymentRow → Bool
payment_has_id id p = p.id == id

-- `p.debt_id = d.id AND p.status = 'pending_confirmation'`
abbrev pub awaits_for : Uuid → PaymentRow → Bool
awaits_for debt_id p = p.debt_id == debt_id && awaits p.status

-- `SUM(p.amount_minor)` over the rows that fit, 0 where there is none.
unfoldable pub sum_amounts : (PaymentRow → Bool) → List PaymentRow → ℕ
sum_amounts q [] = 0
sum_amounts q (p ∷ payments) = (if q p then p.amount_minor else 0) + sum_amounts q payments

-- `GetDebtForPaymentMarkRow`
pub record MarkView : Type 0 where
  pub id : Uuid
  pub debtor_id : Uuid
  pub creditor_id : Uuid
  pub remaining_amount_minor : ℕ
  pub status : DebtStatus
  pub pending_amount_minor : ℕ

-- The cast `::bigint` of the sum fails out of range.
unfoldable pub get_debt_for_payment_mark : Uuid → Query MarkView
get_debt_for_payment_mark debt_id id now db = elim (find_row (debt_has_id debt_id) db.debts) [
  | none ↦ err no_rows
  | some d ↦
      let waiting = sum_amounts (awaits_for d.id) db.payments in
      if ltb max_int64 waiting
      then err failed
      else ok (
        record {
          id = d.id;
          debtor_id = d.debtor_id;
          creditor_id = d.creditor_id;
          remaining_amount_minor = d.remaining_amount_minor;
          status = d.status;
          pending_amount_minor = waiting;
        },
        db,
      )
]

-- `CreatePaymentParams`
pub record CreatePaymentParams : Type 0 where
  pub debt_id : Uuid
  pub paid_by : Uuid
  pub received_by : Uuid
  pub amount_minor : ℕ
  pub note : Option Text

abbrev pub new_payment : CreatePaymentParams → Uuid → Time → PaymentRow
new_payment arg id now = record {
  id = id;
  debt_id = arg.debt_id;
  paid_by = arg.paid_by;
  received_by = arg.received_by;
  amount_minor = arg.amount_minor;
  status = pending_confirmation;
  note = arg.note;
  confirmed_at = none;
  rejected_at = none;
  created_at = now;
  updated_at = now;
}

-- The constraints of the table: the key is new, the debt exists, nobody pays himself, the amount is
-- positive.
unfoldable pub create_payment : CreatePaymentParams → Query PaymentRow
create_payment arg id now db =
    insert_if
      (not (any_row (payment_has_id id) db.payments)
        && (any_row (debt_has_id arg.debt_id) db.debts
            && (not (arg.paid_by == arg.received_by) && ltb 0 arg.amount_minor)))
      (new_payment arg id now) (record db { payments = new_payment arg id now ∷ db.payments })

-- The order of `ORDER BY d.updated_at ASC, d.created_at ASC, d.id ASC`.
unfoldable pub older : DebtRow → DebtRow → Bool
older a b =
    ltb a.updated_at b.updated_at
    || (a.updated_at == b.updated_at
        && (ltb a.created_at b.created_at || (a.created_at == b.created_at && leb a.id b.id)))

unfoldable pub insert_by_age : DebtRow → List DebtRow → List DebtRow
insert_by_age d [] = d ∷ []
insert_by_age d (x ∷ rows) =
    let rest = insert_by_age d rows in if older d x then d ∷ x ∷ rows else x ∷ rest

unfoldable pub sort_by_age : List DebtRow → List DebtRow
sort_by_age [] = []
sort_by_age (d ∷ rows) = insert_by_age d (sort_by_age rows)

abbrev pub is_payable : Uuid → Uuid → List PaymentRow → DebtRow → Bool
is_payable debtor_id creditor_id payments d =
    d.debtor_id == debtor_id
    && (d.creditor_id == creditor_id
        && (is_open d.status
            && (ltb 0 d.remaining_amount_minor && not (any_row (awaits_for d.id) payments))))

unfoldable pub list_bulk_payment_debts_for_update : Uuid → Uuid → Query (List DebtRow)
list_bulk_payment_debts_for_update debtor_id creditor_id id now db =
    ok (sort_by_age (select_rows (is_payable debtor_id creditor_id db.payments) db.debts), db)

-- `GetPaymentWithDebtForUpdateRow`: the payment, and the two columns of its debt.
pub record PaymentWithDebt : Type 0 where
  pub payment : PaymentRow
  pub debt_status : DebtStatus
  pub debt_remaining_amount_minor : ℕ

unfoldable pub get_payment_with_debt_for_update : Uuid → Query PaymentWithDebt
get_payment_with_debt_for_update payment_id id now db =
    elim (find_row (payment_has_id payment_id) db.payments) [
      | none ↦ err no_rows
      | some p ↦ elim (find_row (debt_has_id p.debt_id) db.debts) [
        | none ↦ err no_rows
        | some d ↦ ok (
          record {
            payment = p;
            debt_status = d.status;
            debt_remaining_amount_minor = d.remaining_amount_minor;
          },
          db,
        )
      ]
    ]

abbrev pub update_payment :
    (PaymentRow → Bool) → (PaymentRow → PaymentRow) → Db → Result SqlError (PaymentRow × Db)
update_payment q f db = elim (find_row q db.payments) [
  | none ↦ err no_rows
  | some p ↦ ok (f p, record db { payments = update_rows q f db.payments })
]

abbrev pub may_review : Uuid → PaymentRow → Bool
may_review payment_id p = p.id == payment_id && awaits p.status

abbrev pub confirm_row : Time → PaymentRow → PaymentRow
confirm_row now p = record p { status = confirmed; confirmed_at = some now; updated_at = now }

unfoldable pub confirm_payment : Uuid → Query PaymentRow
confirm_payment payment_id id now = update_payment (may_review payment_id) (confirm_row now)

abbrev pub reject_payment_row : Time → PaymentRow → PaymentRow
reject_payment_row now p = record p {
  status = PaymentStatus.rejected;
  rejected_at = some now;
  updated_at = now;
}

unfoldable pub reject_payment : Uuid → Query PaymentRow
reject_payment payment_id id now = update_payment (may_review payment_id) (reject_payment_row now)

abbrev pub may_apply : Uuid → ℕ → DebtRow → Bool
may_apply debt_id amount d =
    d.id == debt_id && (is_open d.status && leb amount d.remaining_amount_minor)

abbrev pub apply_row : ℕ → Time → DebtRow → DebtRow
apply_row amount now d = record d {
  remaining_amount_minor = d.remaining_amount_minor - amount;
  status = if d.remaining_amount_minor - amount == 0 then settled else partially_settled;
  settled_at = if d.remaining_amount_minor - amount == 0 then some now else d.settled_at;
  updated_at = now;
}

unfoldable pub apply_confirmed_payment_to_debt : Uuid → ℕ → Query DebtRow
apply_confirmed_payment_to_debt debt_id amount id now =
    update_debt (may_apply debt_id amount) (apply_row amount now)
