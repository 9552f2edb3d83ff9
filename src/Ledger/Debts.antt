-- ===== src/Ledger/Debts.antt =====
-- The statements that change debts (internal/postgres/sqlc/expenses.sql.go) against the ledger.
use mlakp_backend.Base.{
  ℕ, ◌<◌, ◌≡◌, refl, subst, ◌∙◌, Bool, true, false, List, All-map, arith, some, Option-cases, inl,
  inr, ok,
}
use mlakp_backend.Store.{
  Uuid, Time, Db, DebtStatus, DebtRow, PaymentRow, accepted, rejected, pending,
}
use mlakp_backend.Sql.Rows.{any_row-update_rows, find_row, update_rows, update_rows-All}
use mlakp_backend.Sql.Debts.{
  update_debt, accept_debt, accept_row, reject_debt, reject_row, may_answer, review_rejected_debt,
  may_resend, resend_row, is_pending, is_rejected, is_open,
}
use mlakp_backend.Ledger.{IsLedger, IsBalanced, IsBacked, settles, StatusFits}
use mlakp_backend.Ledger.Sums.{DebtKeys-update}

pub update_debt_ok :
    (q : DebtRow → Bool) (f : DebtRow → DebtRow) (db : Db) {d : DebtRow} {db' : Db}
    → update_debt q f db ≡ ok (d, db')
    → (e : DebtRow) × (find_row q db.debts ≡ some e)
      × (d ≡ f e)
      × (record db { debts = update_rows q f db.debts } ≡ db')
update_debt_ok q f db {d} {db'} h = elim (Option-cases (find_row q db.debts)) [
  | inl e ↦ absurd (ground arith)
  | inr (x, e) ↦ (x, e, ground arith, ground arith)
]

-- An update of debts that keeps their keys and parties, and their balance where it applies.
pub update_debts-IsLedger :
    (q : DebtRow → Bool) (f : DebtRow → DebtRow) (db : Db)
    → ((d : DebtRow) → (f d).id ≡ d.id)
    → ((d : DebtRow) → (f d).debtor_id ≡ d.debtor_id)
    → ((d : DebtRow) → (f d).creditor_id ≡ d.creditor_id)
    → ((d : DebtRow) → IsBalanced db.payments d → q d ≡ true → IsBalanced db.payments (f d))
    → IsLedger db
    → IsLedger (record db { debts = update_rows q f db.debts })
update_debts-IsLedger q f db same debtor creditor keep v = record {
  balanced =
      update_rows-All (IsBalanced db.payments) (IsBalanced db.payments) q f db.debts v.balanced keep
        (λ d b _. b);
  backed =
      All-map (IsBacked db.debts) _ db.payments
        (λ p (amount, found). (
          amount,
          any_row-update_rows (settles p) q f db.debts (λ d. rw (same d, debtor d, creditor d))
              ∙ found,
        ))
        v.backed;
  debt_keys = DebtKeys-update q f db.debts same v.debt_keys;
  payment_keys = v.payment_keys;
}

pending_fits :
    (s : DebtStatus) (original remaining : ℕ)
    → is_pending s ≡ true
    → StatusFits s original remaining
    → (remaining ≡ original) × (is_open s ≡ false)
pending_fits pending o r h f = (f, refl)
pending_fits accepted o r h f = cc
pending_fits rejected o r h f = cc
pending_fits DebtStatus.partially_settled o r h f = cc
pending_fits DebtStatus.settled o r h f = cc

rejected_fits :
    (s : DebtStatus) (original remaining : ℕ)
    → is_rejected s ≡ true
    → StatusFits s original remaining
    → (remaining ≡ original) × (is_open s ≡ false)
rejected_fits rejected o r h f = (f, refl)
rejected_fits accepted o r h f = cc
rejected_fits pending o r h f = cc
rejected_fits DebtStatus.partially_settled o r h f = cc
rejected_fits DebtStatus.settled o r h f = cc

accept_row-IsBalanced :
    (payments : List PaymentRow) (now : Time) (d : DebtRow)
    → IsBalanced payments d
    → is_pending d.status ≡ true
    → IsBalanced payments (accept_row now d)
accept_row-IsBalanced payments now d b h =
    let (whole, shut) = pending_fits d.status _ _ h b.fits in
    record {
      positive = b.positive;
      parties = b.parties;
      conserved = b.conserved;
      reserved = b.reserved;
      quiet = λ _. b.quiet shut;
      fits = whole;
    }

reject_row-IsBalanced :
    (payments : List PaymentRow) (now : Time) (d : DebtRow)
    → IsBalanced payments d
    → is_pending d.status ≡ true
    → IsBalanced payments (reject_row now d)
reject_row-IsBalanced payments now d b h =
    let (whole, shut) = pending_fits d.status _ _ h b.fits in
    record {
      positive = b.positive;
      parties = b.parties;
      conserved = b.conserved;
      reserved = b.reserved;
      quiet = λ _. b.quiet shut;
      fits = whole;
    }

resend_row-IsBalanced :
    (payments : List PaymentRow) (adjusted : Bool) (amount : ℕ) (now : Time) (d : DebtRow)
    → IsBalanced payments d
    → is_rejected d.status ≡ true
    → (adjusted ≡ true → 0 < amount)
    → IsBalanced payments (resend_row adjusted amount now d)
resend_row-IsBalanced payments adjusted amount now d b h p =
    let (whole, shut) = rejected_fits d.status _ _ h b.fits in
    let none_waits = b.quiet shut in
    record {
      positive = ground (arith, b.positive);
      parties = b.parties;
      conserved = omega (arith, b.conserved);
      reserved = omega arith;
      quiet = λ _. none_waits;
      fits = refl;
    }

pub accept_debt-IsLedger :
    (debt_id debtor_id id : Uuid) (now : Time) (db : Db) (d : DebtRow) (db' : Db)
    → IsLedger db
    → accept_debt debt_id debtor_id id now db ≡ ok (d, db')
    → IsLedger db'
unfolding accept_debt
accept_debt-IsLedger debt_id debtor_id id now db d db' v h =
    let (e, _, _, same) = update_debt_ok (may_answer debt_id debtor_id) (accept_row now) db h in
    subst IsLedger same (
      update_debts-IsLedger (may_answer debt_id debtor_id) (accept_row now) db (λ _. refl)
        (λ _. refl) (λ _. refl) (λ x b q. accept_row-IsBalanced db.payments now x b (ground arith))
        v)

pub reject_debt-IsLedger :
    (debt_id debtor_id id : Uuid) (now : Time) (db : Db) (d : DebtRow) (db' : Db)
    → IsLedger db
    → reject_debt debt_id debtor_id id now db ≡ ok (d, db')
    → IsLedger db'
unfolding reject_debt
reject_debt-IsLedger debt_id debtor_id id now db d db' v h =
    let (e, _, _, same) = update_debt_ok (may_answer debt_id debtor_id) (reject_row now) db h in
    subst IsLedger same (
      update_debts-IsLedger (may_answer debt_id debtor_id) (reject_row now) db (λ _. refl)
        (λ _. refl) (λ _. refl) (λ x b q. reject_row-IsBalanced db.payments now x b (ground arith))
        v)

pub review_rejected_debt-IsLedger :
    (debt_id user_id : Uuid) (adjusted : Bool) (amount : ℕ) (id : Uuid) (now : Time) (db : Db)
    (d : DebtRow) (db' : Db)
    → IsLedger db
    → (adjusted ≡ true → 0 < amount)
    → review_rejected_debt debt_id user_id adjusted amount id now db ≡ ok (d, db')
    → IsLedger db'
unfolding review_rejected_debt
review_rejected_debt-IsLedger debt_id user_id adjusted amount id now db d db' v p h =
    let updated : update_debt (may_resend debt_id user_id db) (resend_row adjusted amount now) db
        ≡ ok (d, db') =
      ground arith in
    let (e, _, _, same) =
      update_debt_ok (may_resend debt_id user_id db) (resend_row adjusted amount now) db updated in
    subst IsLedger same (
      update_debts-IsLedger (may_resend debt_id user_id db) (resend_row adjusted amount now) db
        (λ _. refl) (λ _. refl) (λ _. refl)
        (λ x b q. resend_row-IsBalanced db.payments adjusted amount now x b (ground arith) p) v)
