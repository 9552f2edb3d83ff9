-- ===== src/Payments/Repository/Candidates.antt =====
-- The debts that `ListBulkPaymentDebtsForUpdate` (internal/postgres/sqlc/payments.sql.go) returns.
use mlakp_backend.Base.{
  ◌≡◌, refl, subst, sym, ◌∙◌, Bool, true, false, ◌||◌, ok, some, List, [], ◌∷◌, All, All-zip,
  ==_of_ne, arith, ==_self, Bool-cases, inl, inr,
}
use mlakp_backend.Store.{Uuid, Time, Db, DebtRow, PaymentRow}
use mlakp_backend.Sql.Rows.{any_row, find_row, select_rows, select_rows-All, any_row-select_rows}
use mlakp_backend.Sql.Debts.{debt_has_id, is_open}
use mlakp_backend.Sql.Payments.{
  sum_amounts, awaits_for, older, insert_by_age, sort_by_age, is_payable,
  list_bulk_payment_debts_for_update,
}
use mlakp_backend.Ledger.{IsLedger, DebtKeys}
use mlakp_backend.Ledger.Sums.{no_debt}

pub record IsCandidate (db : Db) (user_id received_by : Uuid) (d : DebtRow) : Type 0 where
  pub stored : find_row (debt_has_id d.id) db.debts ≡ some d
  pub owed : user_id ≡ d.debtor_id
  pub due : received_by ≡ d.creditor_id
  pub open_debt : is_open d.status ≡ true
  pub idle : sum_amounts (awaits_for d.id) db.payments ≡ 0

none_waits :
    (q : PaymentRow → Bool) (payments : List PaymentRow)
    → any_row q payments ≡ false
    → sum_amounts q payments ≡ 0
unfolding any_row sum_amounts
none_waits q [] h = refl
none_waits q (p ∷ payments) h = ground (arith, none_waits q payments)

find_self :
    (debts : List DebtRow)
    → DebtKeys debts
    → All (λ d. find_row (debt_has_id d.id) debts ≡ some d) debts
unfolding find_row
find_self [] keys = tt
find_self (x ∷ debts) (new, keys) = (
  rw (==_self x.id),
  All-zip _ _ _ debts (λ d ne found. rw (==_of_ne x.id d.id (λ e. ne (sym e))) found)
      (no_debt x.id debts new) (find_self debts keys),
)

-- Sorting keeps what holds of every row, and the keys.
insert-All :
    (P : DebtRow → Type 0) (d : DebtRow) (rows : List DebtRow)
    → P d
    → All P rows
    → All P (insert_by_age d rows)
unfolding insert_by_age
insert-All P d [] p all = (p, tt)
insert-All P d (x ∷ rows) p (px, all) = elim (Bool-cases (older d x)) [
  | inl e ↦ rw e (p, (px, all))
  | inr e ↦ rw e (px, insert-All P d rows p all)
]

sort-All : (P : DebtRow → Type 0) (rows : List DebtRow) → All P rows → All P (sort_by_age rows)
unfolding sort_by_age
sort-All P [] all = tt
sort-All P (x ∷ rows) (p, all) = insert-All P x (sort_by_age rows) p (sort-All P rows all)

any_row-insert :
    (q : DebtRow → Bool) (d : DebtRow) (rows : List DebtRow)
    → any_row q (insert_by_age d rows) ≡ q d || any_row q rows
unfolding any_row insert_by_age
any_row-insert q d [] = refl
any_row-insert q d (x ∷ rows) = ground (arith, any_row-insert q d rows)

any_row-sort :
    (q : DebtRow → Bool) (rows : List DebtRow) → any_row q (sort_by_age rows) ≡ any_row q rows
unfolding any_row sort_by_age
any_row-sort q [] = refl
any_row-sort q (x ∷ rows) = rw (any_row-insert q x (sort_by_age rows), any_row-sort q rows)

insert-DebtKeys :
    (d : DebtRow) (rows : List DebtRow)
    → any_row (debt_has_id d.id) rows ≡ false
    → DebtKeys rows
    → DebtKeys (insert_by_age d rows)
unfolding insert_by_age any_row
insert-DebtKeys d [] new keys = (refl, tt)
insert-DebtKeys d (x ∷ rows) new (newer, keys) = elim (Bool-cases (older d x)) [
  | inl e ↦ rw e (new, (newer, keys))
  | inr e ↦
      let (apart, later) = no_debt d.id (x ∷ rows) new in
      let fresh : any_row (debt_has_id d.id) rows ≡ false = ground arith in
      rw e (
        any_row-insert (debt_has_id x.id) d rows
            ∙ rw (==_of_ne d.id x.id (λ q. apart (sym q))) newer,
        insert-DebtKeys d rows fresh keys,
      )
]

sort-DebtKeys : (rows : List DebtRow) → DebtKeys rows → DebtKeys (sort_by_age rows)
unfolding sort_by_age
sort-DebtKeys [] keys = tt
sort-DebtKeys (x ∷ rows) (new, keys) =
    insert-DebtKeys x (sort_by_age rows) (any_row-sort (debt_has_id x.id) rows ∙ new)
      (sort-DebtKeys rows keys)

select-DebtKeys :
    (q : DebtRow → Bool) (rows : List DebtRow) → DebtKeys rows → DebtKeys (select_rows q rows)
unfolding select_rows
select-DebtKeys q [] keys = tt
select-DebtKeys q (x ∷ rows) (new, keys) = elim (Bool-cases (q x)) [
  | inl e ↦ rw e (any_row-select_rows (debt_has_id x.id) q rows new, select-DebtKeys q rows keys)
  | inr e ↦ rw e (select-DebtKeys q rows keys)
]

-- What the statement returns on a ledger, with the tables unchanged.
pub list_bulk_candidates :
    (user_id received_by id : Uuid) (now : Time) (db : Db) {debts : List DebtRow} {db' : Db}
    → IsLedger db
    → list_bulk_payment_debts_for_update user_id received_by id now db ≡ ok (debts, db')
    → (db ≡ db') × All (IsCandidate db user_id received_by) debts × DebtKeys debts
unfolding list_bulk_payment_debts_for_update
list_bulk_candidates user_id received_by id now db {debts} v h =
    let chosen = select_rows (is_payable user_id received_by db.payments) db.debts in
    let fit : All (IsCandidate db user_id received_by) (sort_by_age chosen) = sort-All _ chosen (
      select_rows-All _ _ (is_payable user_id received_by db.payments) db.debts
        (find_self db.debts v.debt_keys) (λ d found q. candidate d found q)) in
    let keys : DebtKeys (sort_by_age chosen) =
      sort-DebtKeys chosen (select-DebtKeys _ db.debts v.debt_keys) in
    let same : sort_by_age chosen ≡ debts = ground arith in
    (
      ground arith,
      subst (All (IsCandidate db user_id received_by)) same fit,
      subst DebtKeys same keys,
    )
  where
    candidate :
        (d : DebtRow)
        → find_row (debt_has_id d.id) db.debts ≡ some d
        → is_payable user_id received_by db.payments d ≡ true
        → IsCandidate db user_id received_by d
    candidate d found q = record {
      stored = found;
      owed = ground arith;
      due = ground arith;
      open_debt = ground arith;
      idle = none_waits (awaits_for d.id) db.payments (ground arith);
    }
