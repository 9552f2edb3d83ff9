-- ===== src/Sql/Debts.antt =====
-- internal/postgres/sqlc/expenses.sql.go: the statements on the tables `debts`, `expenses`,
-- `expense_participants` and `group_members`. An `UPDATE` also sets `updated_at`, by the triggers
-- of migrations/20260505000100_init.up.sql.
use mlakp_backend.Base.{
  ℕ, Bool, true, false, ◌&&◌, Option, none, some, Result, ok, err, ◌==◌, if◌then◌else◌,
}
use mlakp_backend.Store.{
  Query, SqlError, no_rows, failed, Uuid, Time, Db, DebtStatus, DebtRow, ExpenseRow, MemberRow,
  Role, pending, accepted, rejected, partially_settled, settled, owner, member,
}
use mlakp_backend.Sql.Rows.{find_row, update_rows, any_row}

abbrev pub is_pending : DebtStatus → Bool
is_pending pending = true
is_pending accepted = false
is_pending rejected = false
is_pending partially_settled = false
is_pending settled = false

abbrev pub is_rejected : DebtStatus → Bool
is_rejected pending = false
is_rejected accepted = false
is_rejected rejected = true
is_rejected partially_settled = false
is_rejected settled = false

-- `status IN ('accepted', 'partially_settled')`
abbrev pub is_open : DebtStatus → Bool
is_open pending = false
is_open accepted = true
is_open rejected = false
is_open partially_settled = true
is_open settled = false

abbrev pub is_owner : Role → Bool
is_owner owner = true
is_owner member = false

abbrev pub debt_has_id : Uuid → DebtRow → Bool
debt_has_id id d = d.id == id

abbrev pub member_is : Uuid → Uuid → MemberRow → Bool
member_is group_id user_id m = m.group_id == group_id && m.user_id == user_id

-- `UPDATE debts ... RETURNING ...` of at most one row.
abbrev pub update_debt :
    (DebtRow → Bool) → (DebtRow → DebtRow) → Db → Result SqlError (DebtRow × Db)
update_debt p f db = elim (find_row p db.debts) [
  | none ↦ err no_rows
  | some d ↦ ok (f d, record db { debts = update_rows p f db.debts })
]

-- `INSERT`: a violated constraint is an error.
abbrev pub insert_if : {A : Type 0} → Bool → A → Db → Result SqlError (A × Db)
insert_if true a db = ok (a, db)
insert_if false a db = err failed

abbrev pub one_row : {A : Type 0} → Option A → Db → Result SqlError (A × Db)
one_row none db = err no_rows
one_row (some a) db = ok (a, db)

unfoldable pub is_group_member : Uuid → Uuid → Query Bool
is_group_member group_id user_id id now db =
    ok (any_row (member_is group_id user_id) db.members, db)

unfoldable pub get_debt_by_id : Uuid → Query DebtRow
get_debt_by_id debt_id id now db = one_row (find_row (debt_has_id debt_id) db.debts) db

abbrev pub may_answer : Uuid → Uuid → DebtRow → Bool
may_answer debt_id debtor_id d = d.id == debt_id && d.debtor_id == debtor_id && is_pending d.status

abbrev pub accept_row : Time → DebtRow → DebtRow
accept_row now d = record d { status = accepted; accepted_at = some now; updated_at = now }

unfoldable pub accept_debt : Uuid → Uuid → Query DebtRow
accept_debt debt_id debtor_id id now = update_debt (may_answer debt_id debtor_id) (accept_row now)

abbrev pub reject_row : Time → DebtRow → DebtRow
reject_row now d = record d { status = rejected; rejected_at = some now; updated_at = now }

unfoldable pub reject_debt : Uuid → Uuid → Query DebtRow
reject_debt debt_id debtor_id id now = update_debt (may_answer debt_id debtor_id) (reject_row now)

-- Some expense with the id belongs to a group that the user owns.
unfoldable pub owns_expense : Uuid → Uuid → Db → Bool
owns_expense expense_id user_id db =
    any_row
      (λ (e : ExpenseRow).
        e.id == expense_id
        && any_row (λ (m : MemberRow). member_is e.group_id user_id m && is_owner m.role)
            db.members)
      db.expenses

abbrev pub may_resend : Uuid → Uuid → Db → DebtRow → Bool
may_resend debt_id user_id db d =
    d.id == debt_id && is_rejected d.status && owns_expense d.expense_id user_id db

-- `CASE WHEN has_adjusted_amount THEN amount_minor ELSE d.original_amount_minor END`
abbrev pub resent_amount : Bool → ℕ → ℕ → ℕ
resent_amount has_adjusted_amount amount_minor original =
    if has_adjusted_amount then amount_minor else original

abbrev pub resend_row : Bool → ℕ → Time → DebtRow → DebtRow
resend_row has_adjusted_amount amount_minor now d = record d {
  original_amount_minor = resent_amount has_adjusted_amount amount_minor d.original_amount_minor;
  remaining_amount_minor = resent_amount has_adjusted_amount amount_minor d.original_amount_minor;
  status = pending;
  accepted_at = none;
  rejected_at = none;
  settled_at = none;
  updated_at = now;
}

-- The constraint `debts_original_amount_positive` refuses an amount of zero.
unfoldable pub review_rejected_debt : Uuid → Uuid → Bool → ℕ → Query DebtRow
review_rejected_debt debt_id user_id has_adjusted_amount amount_minor id now db =
    if has_adjusted_amount && amount_minor == 0 && any_row (may_resend debt_id user_id db) db.debts
    then err failed
    else update_debt (may_resend debt_id user_id db)
        (resend_row has_adjusted_amount amount_minor now) db

-- `GetDebtReviewContextRow`
pub record ReviewContext : Type 0 where
  pub status : DebtStatus
  pub is_group_owner : Bool

unfoldable pub get_debt_review_context : Uuid → Uuid → Query ReviewContext
get_debt_review_context debt_id user_id id now db = elim (find_row (debt_has_id debt_id) db.debts) [
  | none ↦ err no_rows
  | some d ↦
      ok (record { status = d.status; is_group_owner = owns_expense d.expense_id user_id db }, db)
]
