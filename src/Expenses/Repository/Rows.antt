-- ===== src/Expenses/Repository/Rows.antt =====
-- The loop of `Create` (internal/expenses/repository.go) against the ledger.
use mlakp_backend.Base.{◌≡◌, subst, not, Option, List, [], ◌∷◌, ◌++◌, Bool-cases, inl, inr}
use mlakp_backend.Text.{Text, text_eq}
use mlakp_backend.Store.{Server, Uuid}
use mlakp_backend.Store.Spec.{
  Ensures, by_bind, by_pure, by_throw_if, by_exec, by_on_error, strengthen,
}
use mlakp_backend.Sql.Debts.{is_group_member}
use mlakp_backend.Sql.Expenses.{create_expense_participant, create_debt}
use mlakp_backend.Ledger.{IsLedger}
use mlakp_backend.Ledger.Expenses.{create_debt-IsLedger, create_expense_participant-IsLedger}
use mlakp_backend.Expenses.{
  ExpenseError, participant_not_member, ParticipantShare, participant_from_sqlc, debt_from_sqlc,
}
use mlakp_backend.Expenses.Repository.{any_error, require_group_member, require_all, owe, share_out}

module _ (s : Server) (scan : Text → Option Uuid) (order : List Uuid → List Uuid) where
  pub member-Ensures :
      (group_id user_id : Uuid) (e : ExpenseError)
      → Ensures IsLedger
          (require_group_member s scan order group_id user_id e)
          (λ _ db. IsLedger db)
          (λ _. Unit {0})
  unfolding require_group_member is_group_member
  member-Ensures group_id user_id e =
      by_bind
        (by_on_error any_error (
          by_exec s {Q = λ _ db. IsLedger db} (is_group_member group_id user_id) tt
            (λ id now db b db' v h. let same : db ≡ db' = cc in subst IsLedger same v)
            (λ _ _ _ _ _ _. tt)))
        (λ b. strengthen (λ _ db (v, _). v) (by_throw_if (not b) e (λ _ _ _. tt)))

  pub all-Ensures :
      (group_id : Uuid) (us : List Uuid)
      → Ensures IsLedger
          (require_all s scan order group_id us)
          (λ _ db. IsLedger db)
          (λ _. Unit {0})
  unfolding require_all
  all-Ensures group_id [] = by_pure tt (λ db v. v)
  all-Ensures group_id (u ∷ us) =
      by_bind (member-Ensures group_id u participant_not_member) (λ _. all-Ensures group_id us)

  owe-Ensures :
      (expense_id : Uuid) (payer : Text) (paid_by : Uuid) (p : ParticipantShare) (user_id : Uuid)
      → Ensures IsLedger
          (owe s scan order expense_id payer paid_by p user_id)
          (λ _ db. IsLedger db)
          (λ _. Unit {0})
  unfolding owe
  owe-Ensures expense_id payer paid_by p user_id = elim (Bool-cases (text_eq p.user_id payer)) [
    | inl e ↦ rw e (by_pure [] (λ db v. v))
    | inr e ↦ rw e (
        by_bind
          (by_on_error any_error (
            by_exec s {Q = λ _ db. IsLedger db}
              (create_debt (record {
                expense_id = expense_id;
                debtor_id = user_id;
                creditor_id = paid_by;
                original_amount_minor = p.share_minor;
              }))
              tt (λ id now db d db' v h. create_debt-IsLedger _ id now db d db' v h)
              (λ _ _ _ _ _ _. tt)))
          (λ d. by_pure (debt_from_sqlc d ∷ []) (λ db v. v)))
  ]

  pub share_out-Ensures :
      (expense_id : Uuid) (payer : Text) (paid_by : Uuid) (ps : List (ParticipantShare × Uuid))
      → Ensures IsLedger
          (share_out s scan order expense_id payer paid_by ps)
          (λ _ db. IsLedger db)
          (λ _. Unit {0})
  unfolding share_out
  share_out-Ensures expense_id payer paid_by [] = by_pure ([], []) (λ db v. v)
  share_out-Ensures expense_id payer paid_by ((p, user_id) ∷ ps) =
      by_bind
        (by_on_error any_error (
          by_exec s {Q = λ _ db. IsLedger db}
            (create_expense_participant (record {
              expense_id = expense_id;
              user_id = user_id;
              share_amount_minor = p.share_minor;
            }))
            tt
            (λ id now db row db' v h. create_expense_participant-IsLedger _ id now db row db' v h)
            (λ _ _ _ _ _ _. tt)))
        (λ row. by_bind (owe-Ensures expense_id payer paid_by p user_id) (λ ds.
          by_bind (share_out-Ensures expense_id payer paid_by ps)
            (λ rest. by_pure (participant_from_sqlc row ∷ rest.0, ds ++ rest.1) (λ db v. v))))
