-- ===== src/Expenses/Repository/Made.antt =====
-- The loop of `Create` (internal/expenses/repository.go) and the rows that it makes.
use mlakp_backend.Base.{
  ◌≡◌, refl, subst, ℕ, not, Option, List, [], ◌∷◌, ◌++◌, ok, Bool, true, false, Bool-cases, inl,
  inr,
}
use mlakp_backend.Text.{Text, text_eq}
use mlakp_backend.Store.{Server, Uuid, Time, Db, DebtRow, ParticipantRow}
use mlakp_backend.Store.Spec.{
  Ensures, by_bind, by_pure, by_throw_if, by_exec, by_on_error, strengthen, by_given,
}
use mlakp_backend.Sql.Debts.{is_group_member, insert_if}
use mlakp_backend.Sql.Expenses.{create_expense_participant, create_debt, new_debt, new_participant}
use mlakp_backend.Expenses.{
  ExpenseError, participant_not_member, ParticipantShare, participant_from_sqlc, debt_from_sqlc,
}
use mlakp_backend.Expenses.Repository.{any_error, require_group_member, require_all, owe, share_out}
use mlakp_backend.Expenses.Repository.Spec.{
  IsShareOf, IsDebtOf, AreAll, inserted, shares_of, owes, owed,
}

AreAll-append :
    {R V : Type 0} (P : Uuid → ℕ → R → V → Type 0) (xs ys : List (Uuid × ℕ)) (rows rows' : List R)
    (values values' : List V)
    → AreAll P xs rows values
    → AreAll P ys rows' values'
    → AreAll P (xs ++ ys) (rows ++ rows') (values ++ values')
unfolding AreAll
AreAll-append P [] ys rows rows' values values' (no_rows, no_values) k = rw (no_rows, no_values) k
AreAll-append P (x ∷ xs) ys [] rows' values values' h k = absurd h
AreAll-append P (x ∷ xs) ys (r ∷ rows) rows' [] values' h k = absurd h
AreAll-append P (x ∷ xs) ys (r ∷ rows) rows' (v ∷ values) values' (h, hs) k =
    (h, AreAll-append P xs ys rows rows' values values' hs k)

inserted-append :
    {A : Type 0} (a b table : List A) → inserted (a ++ b) table ≡ inserted b (inserted a table)
unfolding inserted
inserted-append [] b table = refl
inserted-append (r ∷ a) b table = inserted-append a b (r ∷ table)

-- The row that a statement inserts is the one that it returns.
pub insert_if_ok :
    {A : Type 0} (put : A → Db → Db) (b : Bool) {a x : A} {db before db' : Db}
    → db ≡ before
    → insert_if b a (put a db) ≡ ok (x, db')
    → (a ≡ x) × (db' ≡ put x before)
insert_if_ok put true {a} {x} {db} {before} {db'} e h =
    let same : a ≡ x = cc in let changed : put a db ≡ db' = cc in (same, cc)
insert_if_ok put false e h = absurd (cc)

-- A new row, with what the program returns for it.
new_row-IsShareOf :
    (expense_id user_id : Uuid) (n : ℕ) (id : Uuid) (now : Time) {row : ParticipantRow}
    → new_participant
        (record { expense_id = expense_id; user_id = user_id; share_amount_minor = n })
        id
        now
      ≡ row
    → IsShareOf expense_id user_id n row (participant_from_sqlc row)
unfolding participant_from_sqlc
new_row-IsShareOf expense_id user_id n id now same =
    subst (λ r. IsShareOf expense_id user_id n r (participant_from_sqlc r)) same
      (record {
        row_expense = refl;
        row_user = refl;
        row_amount = refl;
        id = refl;
        expense = refl;
        user = refl;
        amount = refl;
      })

new_row-IsDebtOf :
    (expense_id creditor debtor : Uuid) (n : ℕ) (id : Uuid) (now : Time) {row : DebtRow}
    → new_debt
        (record {
          expense_id = expense_id;
          debtor_id = debtor;
          creditor_id = creditor;
          original_amount_minor = n;
        })
        id
        now
      ≡ row
    → IsDebtOf expense_id creditor debtor n row (debt_from_sqlc row)
unfolding debt_from_sqlc
new_row-IsDebtOf expense_id creditor debtor n id now same =
    subst (λ r. IsDebtOf expense_id creditor debtor n r (debt_from_sqlc r)) same
      (record {
        row_expense = refl;
        row_debtor = refl;
        row_creditor = refl;
        row_amount = refl;
        row_remaining = refl;
        row_status = refl;
        id = refl;
        expense = refl;
        debtor_id = refl;
        creditor_id = refl;
        amount = refl;
        remaining = refl;
        status = refl;
      })

module _ (s : Server) (scan : Text → Option Uuid) (order : List Uuid → List Uuid) where
  pub member-Stays :
      (before : Db) (group_id user_id : Uuid) (e : ExpenseError)
      → Ensures
          (λ db. db ≡ before)
          (require_group_member s scan order group_id user_id e)
          (λ _ db. db ≡ before)
          (λ _. Unit {0})
  unfolding require_group_member is_group_member
  member-Stays before group_id user_id e =
      by_bind
        (by_on_error any_error (
          by_exec s {Q = λ _ db. db ≡ before} (is_group_member group_id user_id) tt
            (λ id now db b db' v h. let same : db ≡ db' = cc in cc) (λ _ _ _ _ _ _. tt)))
        (λ b. strengthen (λ _ db (v, _). v) (by_throw_if (not b) e (λ _ _ _. tt)))

  pub all-Stays :
      (before : Db) (group_id : Uuid) (us : List Uuid)
      → Ensures
          (λ db. db ≡ before)
          (require_all s scan order group_id us)
          (λ _ db. db ≡ before)
          (λ _. Unit {0})
  unfolding require_all
  all-Stays before group_id [] = by_pure tt (λ db v. v)
  all-Stays before group_id (u ∷ us) =
      by_bind (member-Stays before group_id u participant_not_member)
        (λ _. all-Stays before group_id us)

  owe-Makes :
      (before : Db) (expense_id : Uuid) (payer : Text) (paid_by : Uuid) (p : ParticipantShare)
      (user_id : Uuid)
      → Ensures
          (λ db. db ≡ before)
          (owe s scan order expense_id payer paid_by p user_id)
          (λ ds db.
            (rows : List DebtRow) × (AreAll
                (IsDebtOf expense_id paid_by)
                (owes payer (p, user_id))
                rows
                ds
              × (db ≡ record before { debts = inserted rows before.debts })))
          (λ _. Unit {0})
  unfolding owe debt_from_sqlc inserted AreAll create_debt
  owe-Makes before expense_id payer paid_by p user_id =
      elim (Bool-cases (text_eq p.user_id payer)) [
        | inl e ↦ rw e (by_pure [] (λ db v. ([], ((refl, refl), v))))
        | inr e ↦ rw e (
            by_bind
              (by_on_error any_error (
                by_exec s
                  {Q = λ d db.
                    IsDebtOf expense_id paid_by user_id p.share_minor d (debt_from_sqlc d)
                    × (db ≡ record before { debts = d ∷ before.debts })}
                  (create_debt (record {
                    expense_id = expense_id;
                    debtor_id = user_id;
                    creditor_id = paid_by;
                    original_amount_minor = p.share_minor;
                  }))
                  tt
                  (λ id now db d db' v h.
                    let (same, changed) =
                      insert_if_ok (λ (r : DebtRow) t. record t { debts = r ∷ t.debts }) _ v h in
                    (
                      new_row-IsDebtOf expense_id paid_by user_id p.share_minor id now same,
                      changed,
                    ))
                  (λ _ _ _ _ _ _. tt)))
              (λ d.
                by_pure (debt_from_sqlc d ∷ [])
                  (λ db (made, v). (d ∷ [], ((made, (refl, refl)), v)))))
      ]

  pub share_out-Makes :
      (before : Db) (expense_id : Uuid) (payer : Text) (paid_by : Uuid)
      (es : List (ParticipantShare × Uuid))
      → Ensures
          (λ db. db ≡ before)
          (share_out s scan order expense_id payer paid_by es)
          (λ made db.
            (shares : List ParticipantRow) × (debts : List DebtRow) × AreAll
              (IsShareOf expense_id)
              (shares_of es)
              shares
              made.0
            × AreAll (IsDebtOf expense_id paid_by) (owed payer es) debts made.1
            × (db ≡ record before {
              participants = inserted shares before.participants;
              debts = inserted debts before.debts;
            }))
          (λ _. Unit {0})
  unfolding share_out inserted AreAll create_expense_participant
  share_out-Makes before expense_id payer paid_by [] =
      by_pure ([], []) (λ db v. ([], [], (refl, refl), (refl, refl), v))
  share_out-Makes before expense_id payer paid_by ((p, user_id) ∷ es) =
      by_bind
        (by_on_error any_error (
          by_exec s
            {Q = λ row db.
              IsShareOf expense_id user_id p.share_minor row (participant_from_sqlc row)
              × (db ≡ record before { participants = row ∷ before.participants })}
            (create_expense_participant (record {
              expense_id = expense_id;
              user_id = user_id;
              share_amount_minor = p.share_minor;
            }))
            tt
            (λ id now db row db' v h.
              let (same, changed) =
                insert_if_ok
                  (λ (r : ParticipantRow) t. record t { participants = r ∷ t.participants }) _ v
                  h in
              (new_row-IsShareOf expense_id user_id p.share_minor id now same, changed))
            (λ _ _ _ _ _ _. tt)))
        (λ row. by_given λ share.
          by_bind
            (owe-Makes (record before { participants = row ∷ before.participants }) expense_id payer
              paid_by p user_id)
            (λ ds.
              by_given
                {P = λ drows db.
                  AreAll (IsDebtOf expense_id paid_by) (owes payer (p, user_id)) drows ds
                  × (db ≡ record before {
                    participants = row ∷ before.participants;
                    debts = inserted drows before.debts;
                  })}
                λ drows. by_given λ owing.
                  by_bind
                    (share_out-Makes
                      (record before {
                        participants = row ∷ before.participants;
                        debts = inserted drows before.debts;
                      })
                      expense_id payer paid_by es)
                    (λ rest.
                      by_pure (participant_from_sqlc row ∷ rest.0, ds ++ rest.1)
                        (λ db (shares, debts, all_shares, all_debts, v). (
                          row ∷ shares,
                          drows ++ debts,
                          (share, all_shares),
                          AreAll-append (IsDebtOf expense_id paid_by) (owes payer (p, user_id))
                              (owed payer es) drows debts ds rest.1 owing all_debts,
                          rw (inserted-append drows debts before.debts) v,
                        )))))
