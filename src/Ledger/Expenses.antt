-- ===== src/Ledger/Expenses.antt =====
-- The statements that create an expense and its debts against the ledger.
use mlakp_backend.Base.{
  ◌≡◌, ◌≢◌, refl, subst, ◌<◌, true, false, List, [], ◌∷◌, ok, arith, All, All-map, ◌==◌, Bool-cases,
  inl, inr,
}
use mlakp_backend.Store.{Uuid, Time, Db, DebtRow, PaymentRow, ExpenseRow, ParticipantRow}
use mlakp_backend.Sql.Rows.{any_row}
use mlakp_backend.Sql.Debts.{debt_has_id}
use mlakp_backend.Sql.Payments.{sum_amounts, awaits_for}
use mlakp_backend.Sql.Expenses.{
  create_expense, CreateExpenseParams, new_expense, create_expense_participant,
  CreateExpenseParticipantParams, new_participant, create_debt, CreateDebtParams, new_debt,
}
use mlakp_backend.Ledger.{IsLedger, IsBacked, settles, confirmed_for}

-- A debt that backs a payment has the payment's key.
fresh_key :
    (id : Uuid) (p : PaymentRow) (debts : List DebtRow)
    → any_row (settles p) debts ≡ true
    → any_row (debt_has_id id) debts ≡ false
    → (p.debt_id == id) ≡ false
unfolding any_row
fresh_key id p [] h k = cc
fresh_key id p (d ∷ debts) h k = elim (Bool-cases (settles p d)) [
  | inl e ↦ ground arith
  | inr e ↦ fresh_key id p debts (ground arith) (ground arith)
]

no_payments :
    (id : Uuid) (debts : List DebtRow) (payments : List PaymentRow)
    → All (IsBacked debts) payments
    → any_row (debt_has_id id) debts ≡ false
    → (sum_amounts (awaits_for id) payments ≡ 0) × (sum_amounts (confirmed_for id) payments ≡ 0)
unfolding sum_amounts
no_payments id debts [] all fresh = (refl, refl)
no_payments id debts (p ∷ payments) ((amount, back), all) fresh =
    let miss = fresh_key id p debts back fresh in
    let (waiting, paid) = no_payments id debts payments all fresh in
    (rw miss (omega (arith, waiting)), rw miss (omega (arith, paid)))

pub create_debt-IsLedger :
    (arg : CreateDebtParams) (id : Uuid) (now : Time) (db : Db) (d : DebtRow) (db' : Db)
    → IsLedger db
    → create_debt arg id now db ≡ ok (d, db')
    → IsLedger db'
unfolding create_debt any_row
create_debt-IsLedger arg id now db d db' v h =
    let same : record db { debts = new_debt arg id now ∷ db.debts } ≡ db' = ground arith in
    let fresh : any_row (debt_has_id id) db.debts ≡ false = ground arith in
    let amount : 0 < arg.original_amount_minor = ground arith in
    let apart : arg.debtor_id ≢ arg.creditor_id = λ e. ground arith in
    let (waiting, paid) = no_payments id db.debts db.payments v.backed fresh in
    subst IsLedger same (record {
      balanced = (
        record {
          positive = amount;
          parties = apart;
          conserved = omega (arith, paid);
          reserved = omega (arith, waiting);
          quiet = λ _. waiting;
          fits = refl;
        },
        v.balanced,
      );
      backed =
          All-map (IsBacked db.debts) _ db.payments
            (λ p (positive, back). (positive, ground (arith, back))) v.backed;
      debt_keys = (fresh, v.debt_keys);
      payment_keys = v.payment_keys;
    })

pub create_expense-IsLedger :
    (arg : CreateExpenseParams) (id : Uuid) (now : Time) (db : Db) (e : ExpenseRow) (db' : Db)
    → IsLedger db
    → create_expense arg id now db ≡ ok (e, db')
    → IsLedger db'
unfolding create_expense
create_expense-IsLedger arg id now db e db' v h =
    let same : record db { expenses = new_expense arg id now ∷ db.expenses } ≡ db' = ground arith in
    subst IsLedger same (record {
      balanced = v.balanced;
      backed = v.backed;
      debt_keys = v.debt_keys;
      payment_keys = v.payment_keys;
    })

pub create_expense_participant-IsLedger :
    (arg : CreateExpenseParticipantParams) (id : Uuid) (now : Time) (db : Db) (p : ParticipantRow)
    (db' : Db)
    → IsLedger db
    → create_expense_participant arg id now db ≡ ok (p, db')
    → IsLedger db'
unfolding create_expense_participant
create_expense_participant-IsLedger arg id now db p db' v h =
    let same : record db { participants = new_participant arg id now ∷ db.participants } ≡ db' =
      ground arith in
    subst IsLedger same (record {
      balanced = v.balanced;
      backed = v.backed;
      debt_keys = v.debt_keys;
      payment_keys = v.payment_keys;
    })
