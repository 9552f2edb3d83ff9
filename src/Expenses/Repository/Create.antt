-- ===== src/Expenses/Repository/Create.antt =====
-- What `Create` (internal/expenses/repository.go) returns, and what it leaves in the tables.
use mlakp_backend.Base.{◌≡◌, refl, ap, ◌∙◌, Option, some, List, ◌∷◌, map, ok, sym}
use mlakp_backend.Text.{Text}
use mlakp_backend.Uuid.{format_uuid}
use mlakp_backend.Store.{Server, World, Uuid, Time, Db, ExpenseRow}
use mlakp_backend.Store.Spec.{Ensures, by_bind, by_pure, by_exec, by_on_error, by_given}
use mlakp_backend.Store.Invariants.{validated_returns}
use mlakp_backend.Sql.Expenses.{create_expense, CreateExpenseParams, new_expense}
use mlakp_backend.Expenses.{
  forbidden, payer_not_member, other, CreateParams, ParticipantShare, CreatedExpense,
  expense_from_sqlc,
}
use mlakp_backend.Expenses.Repository.{any_error, Keys, parse_keys, create_body, create}
use mlakp_backend.Expenses.Repository.Spec.{IsCreated}
use mlakp_backend.Expenses.Repository.Made.{member-Stays, all-Stays, share_out-Makes, insert_if_ok}
use mlakp_backend.Expenses.Repository.Scanned.{IsScanned, parse_keys-IsScanned}

-- The row of the expense, without its id and its times.
abbrev expense_params : CreateParams → Keys → CreateExpenseParams
expense_params params keys = record {
  group_id = keys.group_id;
  title = params.title;
  description = params.description;
  total_amount_minor = params.total_minor;
  currency = params.currency;
  paid_by = keys.paid_by;
  split_type = params.split_type;
  receipt_url = params.receipt_url;
  expense_date = params.expense_date;
  created_by = keys.created_by;
}

module _ (s : Server) (scan : Text → Option Uuid) (order : List Uuid → List Uuid) where
  create_body-Makes :
      (before : Db) (params : CreateParams) (keys : Keys)
      → IsScanned scan params keys
      → Ensures
          (λ db. db ≡ before)
          (create_body s scan order params keys)
          (λ c db. IsCreated scan params before db c)
          (λ _. Unit {0})
  unfolding create_body create_expense expense_from_sqlc
  create_body-Makes before params keys scanned =
      by_bind (member-Stays s scan order before keys.group_id keys.created_by forbidden) λ _.
        by_bind (member-Stays s scan order before keys.group_id keys.paid_by payer_not_member) λ _.
          by_bind
            (all-Stays s scan order before keys.group_id
              (order (map (λ (e : ParticipantShare × Uuid). e.1) keys.participants)))
            λ _.
              by_bind
                (by_on_error any_error (
                  by_exec s
                    {Q = λ e db.
                      ((id : Uuid) × (now : Time) × (new_expense (expense_params params keys) id now
                          ≡ e))
                      × (db ≡ record before { expenses = e ∷ before.expenses })}
                    (create_expense (expense_params params keys)) tt
                    (λ id now db e db' v h.
                      let (same, changed) =
                        insert_if_ok (λ (r : ExpenseRow) t. record t { expenses = r ∷ t.expenses })
                          _ v h in
                      ((id, now, same), changed))
                    (λ _ _ _ _ _ _. tt)))
                (λ e. by_given λ (id, now, same).
                  by_bind
                    (share_out-Makes s scan order (record before { expenses = e ∷ before.expenses })
                      e.id params.paid_by keys.paid_by keys.participants)
                    (λ made.
                      by_pure
                        (record {
                          expense = expense_from_sqlc e;
                          participants = made.0;
                          debts = made.1;
                        })
                        (λ db (shares, debts, all_shares, all_debts, v). record {
                          payer = keys.paid_by;
                          payer_scans = scanned.payer_scans;
                          users = keys.participants;
                          users_are = scanned.users_are;
                          users_scan = scanned.users_scan;
                          expense = e;
                          row_group = scanned.group_scans ∙ ap (λ r. some r.group_id) same;
                          row_creator = scanned.creator_scans ∙ ap (λ r. some r.created_by) same;
                          row_payer = ap (λ r. r.paid_by) (sym same);
                          row_total = ap (λ r. r.total_amount_minor) (sym same);
                          expense_id = refl;
                          expense_payer = ap (λ r. format_uuid r.paid_by) (sym same);
                          expense_total = ap (λ r. r.total_amount_minor) (sym same);
                          shares = shares;
                          debts = debts;
                          all_shares = all_shares;
                          all_debts = all_debts;
                          tables = v;
                        })))

  -- An expense that `Create` returns is in the tables: to what they held, it adds a row for the
  -- expense, with the group, the creator and the payer that the identifiers scan to and the
  -- total that was asked for; for each participant, in order, one with his user and his share;
  -- and for each participant but the payer one for a pending debt of this share to the payer,
  -- all of it still to be paid. What is returned has the ids, the parties and the amounts of
  -- these rows, and the other tables are as they were.
  pub create_rows :
      (params : CreateParams) (w : World) {c : CreatedExpense}
      → (create s scan order params w).0 ≡ ok c
      → IsCreated scan params w.db (create s scan order params w).1.db c
  unfolding create
  create_rows params w {c} h =
      validated_returns s (λ db. db ≡ w.db) (λ c db. IsCreated scan params w.db db c) other
        (parse_keys s scan order params) (λ keys. create_body s scan order params keys)
        (λ keys e. create_body-Makes w.db params keys (parse_keys-IsScanned s scan order params e))
        w refl h
