-- ===== src/Expenses/Repository/Keeps.antt =====
-- `Create` of internal/expenses/repository.go against the ledger.
use mlakp_backend.Base.{Option, List, map}
use mlakp_backend.Text.{Text}
use mlakp_backend.Store.{Server, World, Uuid}
use mlakp_backend.Store.Spec.{Ensures, by_bind, by_pure, by_exec, by_on_error}
use mlakp_backend.Store.Invariants.{validated_invariant}
use mlakp_backend.Sql.Expenses.{create_expense}
use mlakp_backend.Ledger.{IsLedger}
use mlakp_backend.Ledger.Expenses.{create_expense-IsLedger}
use mlakp_backend.Expenses.{
  forbidden, payer_not_member, other, CreateParams, ParticipantShare, expense_from_sqlc,
}
use mlakp_backend.Expenses.Repository.{any_error, Keys, parse_keys, create_body, create}
use mlakp_backend.Expenses.Repository.Rows.{member-Ensures, all-Ensures, share_out-Ensures}

module _ (s : Server) (scan : Text → Option Uuid) (order : List Uuid → List Uuid) where
  create_body-Ensures :
      (params : CreateParams) (keys : Keys)
      → Ensures IsLedger
          (create_body s scan order params keys)
          (λ _ db. IsLedger db)
          (λ _. Unit {0})
  unfolding create_body
  create_body-Ensures params keys =
      by_bind (member-Ensures s scan order keys.group_id keys.created_by forbidden) λ _.
        by_bind (member-Ensures s scan order keys.group_id keys.paid_by payer_not_member) λ _.
          by_bind
            (all-Ensures s scan order keys.group_id
              (order (map (λ (e : ParticipantShare × Uuid). e.1) keys.participants)))
            λ _.
              by_bind
                (by_on_error any_error (
                  by_exec s {Q = λ _ db. IsLedger db}
                    (create_expense (record {
                      group_id = keys.group_id;
                      title = params.title;
                      description = params.description;
                      total_amount_minor = params.total_minor;
                      currency = params.currency;
                      paid_by = keys.paid_by;
                      split_type = params.split_type;
                      receipt_url = params.receipt_url;
                      expense_date = params.expense_date;
                      created_by = keys.created_by;
                    }))
                    tt (λ id now db e db' v h. create_expense-IsLedger _ id now db e db' v h)
                    (λ _ _ _ _ _ _. tt)))
                (λ e.
                  by_bind
                    (share_out-Ensures s scan order e.id params.paid_by keys.paid_by
                      keys.participants)
                    λ made.
                      by_pure
                        (record {
                          expense = expense_from_sqlc e;
                          participants = made.0;
                          debts = made.1;
                        })
                        (λ db v. v))

  -- Creating an expense keeps the ledger.
  pub create-keeps :
      (params : CreateParams) (w : World)
      → IsLedger w.db
      → IsLedger (create s scan order params w).1.db
  unfolding create
  create-keeps params w v =
      validated_invariant s IsLedger other (parse_keys s scan order params)
        (λ keys. create_body s scan order params keys) (λ keys. create_body-Ensures params keys) w v
