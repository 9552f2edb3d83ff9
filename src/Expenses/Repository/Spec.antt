-- ===== src/Expenses/Repository/Spec.antt =====
-- What `Create` (internal/expenses/repository.go) is to return, and to leave in the tables.
use mlakp_backend.Base.{◌≡◌, ℕ, Option, some, List, [], ◌∷◌, ◌++◌, map, All, if◌then◌else◌}
use mlakp_backend.Text.{Text, text_eq}
use mlakp_backend.Uuid.{format_uuid}
use mlakp_backend.Store.{Uuid, Db, DebtRow, ParticipantRow, ExpenseRow, pending}
use mlakp_backend.Expenses.{CreateParams, ParticipantShare, CreatedExpense, Participant, Debt}

-- A row of a participant, and the participant that is returned for it: his share of the expense.
pub record IsShareOf (expense_id user_id : Uuid) (n : ℕ) (row : ParticipantRow) (p : Participant)
    : Type 0 where
  pub row_expense : row.expense_id ≡ expense_id
  pub row_user : row.user_id ≡ user_id
  pub row_amount : row.share_amount_minor ≡ n
  pub id : p.id ≡ format_uuid row.id
  pub expense : p.expense_id ≡ format_uuid expense_id
  pub user : p.user_id ≡ format_uuid user_id
  pub amount : p.share_amount_minor ≡ n

-- A row of a debt, and the debt that is returned for it: the debtor owes the creditor the amount,
-- all of it, and has not answered yet.
pub record IsDebtOf (expense_id creditor debtor : Uuid) (n : ℕ) (row : DebtRow) (d : Debt)
    : Type 0 where
  pub row_expense : row.expense_id ≡ expense_id
  pub row_debtor : row.debtor_id ≡ debtor
  pub row_creditor : row.creditor_id ≡ creditor
  pub row_amount : row.original_amount_minor ≡ n
  pub row_remaining : row.remaining_amount_minor ≡ n
  pub row_status : row.status ≡ pending
  pub id : d.id ≡ format_uuid row.id
  pub expense : d.expense_id ≡ format_uuid expense_id
  pub debtor_id : d.debtor_id ≡ format_uuid debtor
  pub creditor_id : d.creditor_id ≡ format_uuid creditor
  pub amount : d.original_amount_minor ≡ n
  pub remaining : d.remaining_amount_minor ≡ n
  pub status : d.status ≡ pending

-- One row and one returned value for each user and amount, in their order.
unfoldable pub AreAll :
    {R V : Type 0} → (Uuid → ℕ → R → V → Type 0) → List (Uuid × ℕ) → List R → List V → Type 0
AreAll P [] rows values = (rows ≡ []) × (values ≡ [])
AreAll P (x ∷ xs) [] values = ⊥
AreAll P (x ∷ xs) (r ∷ rows) [] = ⊥
AreAll P (x ∷ xs) (r ∷ rows) (v ∷ values) = P x.0 x.1 r v × AreAll P xs rows values

-- A table behind the insertion of rows, one after another.
unfoldable pub inserted : {A : Type 0} → List A → List A → List A
inserted [] table = table
inserted (r ∷ rows) table = inserted rows (r ∷ table)

-- Each participant with his share.
abbrev pub shares_of : List (ParticipantShare × Uuid) → List (Uuid × ℕ)
shares_of = map (λ (e : ParticipantShare × Uuid). (e.1, e.0.share_minor))

-- What a participant owes: his share, unless he is the payer.
abbrev pub owes : Text → ParticipantShare × Uuid → List (Uuid × ℕ)
owes payer e = if text_eq e.0.user_id payer then [] else (e.1, e.0.share_minor) ∷ []

abbrev pub owed : Text → List (ParticipantShare × Uuid) → List (Uuid × ℕ)
owed payer [] = []
owed payer (e ∷ es) = owes payer e ++ owed payer es

abbrev pub plain : List (ParticipantShare × Uuid) → List ParticipantShare
plain = map (λ (e : ParticipantShare × Uuid). e.0)

-- An expense that is created, with the tables before and after: the identifiers scan to those of the
-- rows, and there is a new row for the expense, one for the share of each participant, one for the
-- debt of each participant but the payer to the payer, and nothing else is changed.
pub record IsCreated (scan : Text → Option Uuid) (params : CreateParams) (before after : Db)
    (c : CreatedExpense) : Type 0 where
  pub payer : Uuid
  pub payer_scans : scan params.paid_by ≡ some payer
  pub users : List (ParticipantShare × Uuid)
  pub users_are : plain users ≡ params.participants
  pub users_scan : All (λ (e : ParticipantShare × Uuid). scan e.0.user_id ≡ some e.1) users
  pub expense : ExpenseRow
  pub row_group : scan params.group_id ≡ some expense.group_id
  pub row_creator : scan params.created_by ≡ some expense.created_by
  pub row_payer : expense.paid_by ≡ payer
  pub row_total : expense.total_amount_minor ≡ params.total_minor
  pub expense_id : c.expense.id ≡ format_uuid expense.id
  pub expense_payer : c.expense.paid_by ≡ format_uuid payer
  pub expense_total : c.expense.total_amount_minor ≡ params.total_minor
  pub shares : List ParticipantRow
  pub debts : List DebtRow
  pub all_shares : AreAll (IsShareOf expense.id) (shares_of users) shares c.participants
  pub all_debts : AreAll (IsDebtOf expense.id payer) (owed params.paid_by users) debts c.debts
  pub tables : after ≡ record before {
    expenses = expense ∷ before.expenses;
    participants = inserted shares before.participants;
    debts = inserted debts before.debts;
  }
