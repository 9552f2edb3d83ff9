-- ===== src/Debts/Repository/Keeps.antt =====
-- The methods of internal/debts/repository.go against the ledger.
use mlakp_backend.Base.{
  ◌≡◌, ◌<◌, Bool, true, false, not, Option, none, some, ◌==◌, Result, ok, err, subst,
}
use mlakp_backend.Text.{Text}
use mlakp_backend.Store.{
  Server, Action, Query, Uuid, Db, Time, DebtRow, SqlError, no_rows, failed, duplicate, exec,
  attempt, on_error, throw_if, throw, ◌>>=◌,
}
use mlakp_backend.Store.Invariants.{exec_invariant}
use mlakp_backend.Store.Keeps.{Keeps, bind-Keeps, validated-Keeps}
use mlakp_backend.Sql.Debts.{
  accept_debt, reject_debt, review_rejected_debt, get_debt_by_id, get_debt_review_context, one_row,
  debt_has_id, ReviewContext, owns_expense,
}
use mlakp_backend.Sql.Rows.{find_row}
use mlakp_backend.Ledger.{IsLedger}
use mlakp_backend.Ledger.Debts.{
  accept_debt-IsLedger, reject_debt-IsLedger, review_rejected_debt-IsLedger,
}
use mlakp_backend.Debts.{
  DebtError, Debt, ReviewRejectedParams, not_found_or_other, forbidden, invalid_state,
}
use mlakp_backend.Debts.Repository.{
  parse_transition_uuids, classify_transition_error, classify_review_error, transition_result,
  review_result, accept, reject, review_rejected, has_adjusted_amount, adjusted_amount,
}

attempt-Keeps :
    {E F A : Type 0} {P : Db → Type 0} (m : Action E A) → Keeps P m → Keeps {E = F} P (attempt m)
attempt-Keeps m h = record { at = λ w p. h.at w p }

one_row_reads :
    {A : Type 0} (o : Option A) (db : Db) {a : A} {db' : Db} → one_row o db ≡ ok (a, db') → db ≡ db'
one_row_reads none db h = absurd (cc)
one_row_reads (some a) db h = cc

context_reads :
    (o : Option DebtRow) (user_id : Uuid) (db : Db) {a : ReviewContext} {db' : Db}
    → ◌≡◌ {A = Result SqlError (ReviewContext × Db)}
        (elim o [
          | none ↦ err no_rows
          | some d ↦ ok (
            record { status = d.status; is_group_owner = owns_expense d.expense_id user_id db },
            db,
          )
        ])
        (ok (a, db'))
    → db ≡ db'
context_reads none user_id db h = absurd (cc)
context_reads (some d) user_id db h = cc

module _ (s : Server) (scan : Text → Option Uuid) where
  -- A statement that only reads.
  reads :
      {A : Type 0} (q : Query A)
      → ((id : Uuid) (now : Time) (db : Db) (a : A) (db' : Db)
          → q id now db ≡ ok (a, db')
          → db ≡ db')
      → (f : SqlError → DebtError) → Keeps IsLedger (on_error f (exec s q))
  reads q h f = record {
    at =
        exec_invariant s IsLedger q (λ id now db a db' v e. subst IsLedger (h id now db a db' e) v);
  }

  refused :
      (test : Bool)
      → Keeps IsLedger (throw_if test forbidden >>= λ _. throw {A = Debt} invalid_state)
  refused true = record { at = λ w v. v }
  refused false = record { at = λ w v. v }

  transition_result-Keeps :
      (debt_id debtor_id : Uuid) (r : Result SqlError DebtRow)
      → Keeps IsLedger (transition_result s scan debt_id debtor_id r)
  unfolding classify_transition_error get_debt_by_id
  transition_result-Keeps debt_id debtor_id (ok d) = record { at = λ w v. v }
  transition_result-Keeps debt_id debtor_id (err failed) = record { at = λ w v. v }
  transition_result-Keeps debt_id debtor_id (err (duplicate name)) = record { at = λ w v. v }
  transition_result-Keeps debt_id debtor_id (err no_rows) =
      bind-Keeps
        (reads (get_debt_by_id debt_id)
          (λ id now db a db' e. one_row_reads (find_row (debt_has_id debt_id) db.debts) db e)
          not_found_or_other)
        (λ existing. refused (not (existing.debtor_id == debtor_id)))

  review_result-Keeps :
      (debt_id reviewer_id : Uuid) (r : Result SqlError DebtRow)
      → Keeps IsLedger (review_result s scan debt_id reviewer_id r)
  unfolding classify_review_error get_debt_review_context
  review_result-Keeps debt_id reviewer_id (ok d) = record { at = λ w v. v }
  review_result-Keeps debt_id reviewer_id (err failed) = record { at = λ w v. v }
  review_result-Keeps debt_id reviewer_id (err (duplicate name)) = record { at = λ w v. v }
  review_result-Keeps debt_id reviewer_id (err no_rows) =
      bind-Keeps
        (reads (get_debt_review_context debt_id reviewer_id)
          (λ id now db a db' e.
            context_reads (find_row (debt_has_id debt_id) db.debts) reviewer_id db e)
          not_found_or_other)
        (λ context. refused (not context.is_group_owner))

  pub accept-Keeps : (debt_id debtor_id : Text) → Keeps IsLedger (accept s scan debt_id debtor_id)
  unfolding accept
  accept-Keeps debt_id debtor_id =
      validated-Keeps (parse_transition_uuids s scan debt_id debtor_id) _ (λ ids.
        bind-Keeps {f = transition_result s scan ids.0 ids.1}
          {m = attempt (exec s (accept_debt ids.0 ids.1))}
          (attempt-Keeps (exec s (accept_debt ids.0 ids.1)) (record {
            at =
                exec_invariant s IsLedger (accept_debt ids.0 ids.1)
                  (λ id now db d db' v e. accept_debt-IsLedger ids.0 ids.1 id now db d db' v e);
          }))
          (λ r. transition_result-Keeps ids.0 ids.1 r))

  pub reject-Keeps : (debt_id debtor_id : Text) → Keeps IsLedger (reject s scan debt_id debtor_id)
  unfolding reject
  reject-Keeps debt_id debtor_id =
      validated-Keeps (parse_transition_uuids s scan debt_id debtor_id) _ (λ ids.
        bind-Keeps {f = transition_result s scan ids.0 ids.1}
          {m = attempt (exec s (reject_debt ids.0 ids.1))}
          (attempt-Keeps (exec s (reject_debt ids.0 ids.1)) (record {
            at =
                exec_invariant s IsLedger (reject_debt ids.0 ids.1)
                  (λ id now db d db' v e. reject_debt-IsLedger ids.0 ids.1 id now db d db' v e);
          }))
          (λ r. transition_result-Keeps ids.0 ids.1 r))

  -- Sending a debt back keeps the ledger where the adjusted amount, if there is one, is positive.
  pub review_rejected-Keeps :
      (params : ReviewRejectedParams)
      → (has_adjusted_amount params.amount_minor ≡ true → 0 < adjusted_amount params.amount_minor)
      → Keeps IsLedger (review_rejected s scan params)
  unfolding review_rejected
  review_rejected-Keeps params p =
      let adjusted = has_adjusted_amount params.amount_minor in
      let amount = adjusted_amount params.amount_minor in
      validated-Keeps (parse_transition_uuids s scan params.debt_id params.reviewer_id) _ (λ ids.
        bind-Keeps {f = review_result s scan ids.0 ids.1}
          {m = attempt (exec s (review_rejected_debt ids.0 ids.1 adjusted amount))}
          (attempt-Keeps (exec s (review_rejected_debt ids.0 ids.1 adjusted amount)) (record {
            at =
                exec_invariant s IsLedger (review_rejected_debt ids.0 ids.1 adjusted amount)
                  (λ id now db d db' v e.
                    review_rejected_debt-IsLedger ids.0 ids.1 adjusted amount id now db d db' v p
                      e);
          }))
          (λ r. review_result-Keeps ids.0 ids.1 r))
