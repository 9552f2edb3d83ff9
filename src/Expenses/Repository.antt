-- ===== src/Expenses/Repository.antt =====
-- internal/expenses/repository.go: `Create`, in one transaction.
pub mod Rows
pub mod Keeps
pub mod Spec
pub mod Made
pub mod Scanned
pub mod Create
use mlakp_backend.Base.{
  Bool, true, false, not, Option, none, some, List, [], ◌∷◌, ◌++◌, map, Result, ok, err,
  if◌then◌else◌,
}
use mlakp_backend.Base
use mlakp_backend.Text.{Text, text_eq}
use mlakp_backend.Store.{
  Server, Action, Uuid, SqlError, exec, transaction, pure, throw_if, lift, on_error, ◌>>=◌, ◌>>◌,
}
use mlakp_backend.Sql.Debts.{is_group_member}
use mlakp_backend.Sql.Expenses.{
  create_expense, CreateExpenseParams, create_expense_participant, CreateExpenseParticipantParams,
  create_debt, CreateDebtParams,
}
use mlakp_backend.Expenses.{
  ExpenseError, invalid_group_id, invalid_payer_id, invalid_participant, forbidden,
  payer_not_member, participant_not_member, other, CreateParams, ParticipantShare, CreatedExpense,
  Participant, Debt, expense_from_sqlc, participant_from_sqlc, debt_from_sqlc,
}

abbrev pub any_error : SqlError → ExpenseError
any_error e = other

-- The identifiers of the group, the creator and the payer.
pub record Keys : Type 0 where
  pub group_id : Uuid
  pub created_by : Uuid
  pub paid_by : Uuid
  pub participants : List (ParticipantShare × Uuid)

-- A Go map is read in no particular order: `order` is the order of the map of the participants.
module _ (s : Server) (scan : Text → Option Uuid) (order : List Uuid → List Uuid) where
  abbrev parse_uuid : Text → ExpenseError → Result ExpenseError Uuid
  parse_uuid value e = elim (scan value) [ none ↦ err e | some u ↦ ok u ]

  -- `participantIDs`: each participant with its identifier.
  unfoldable pub parse_participants :
      List ParticipantShare → Result ExpenseError (List (ParticipantShare × Uuid))
  parse_participants [] = ok []
  parse_participants (p ∷ ps) =
      Base.◌>>=◌ (parse_uuid p.user_id invalid_participant)
        λ u. Base.◌>>=◌ (parse_participants ps) λ rest. ok ((p, u) ∷ rest)

  unfoldable pub parse_keys : CreateParams → Result ExpenseError Keys
  parse_keys params = Base.◌>>=◌ (parse_uuid params.group_id invalid_group_id) λ group_id.
      Base.◌>>=◌ (parse_uuid params.created_by forbidden) λ created_by.
        Base.◌>>=◌ (parse_uuid params.paid_by invalid_payer_id) λ paid_by.
          Base.◌>>=◌ (parse_participants params.participants) λ participants. ok (record {
            group_id = group_id;
            created_by = created_by;
            paid_by = paid_by;
            participants = participants;
          })

  -- `requireGroupMember`
  unfoldable pub require_group_member : Uuid → Uuid → ExpenseError → Action ExpenseError (Unit {0})
  require_group_member group_id user_id missing = do
    is_member ← on_error any_error (exec s (is_group_member group_id user_id))
    throw_if (not is_member) missing

  unfoldable pub require_all : Uuid → List Uuid → Action ExpenseError (Unit {0})
  require_all group_id [] = pure tt
  require_all group_id (u ∷ us) = do
    require_group_member group_id u participant_not_member
    require_all group_id us

  unfoldable pub owe :
      Uuid → Text → Uuid → ParticipantShare → Uuid → Action ExpenseError (List Debt)
  owe expense_id payer paid_by p user_id =
      if text_eq p.user_id payer
      then pure []
      else on_error any_error (
          exec s (
            create_debt (record {
              expense_id = expense_id;
              debtor_id = user_id;
              creditor_id = paid_by;
              original_amount_minor = p.share_minor;
            })))
        >>= λ d. pure (debt_from_sqlc d ∷ [])

  -- The loop over the participants: a row for each, and a debt for each but the payer.
  unfoldable pub share_out :
      Uuid
      → Text
      → Uuid
      → List (ParticipantShare × Uuid)
      → Action ExpenseError (List Participant × List Debt)
  share_out expense_id payer paid_by [] = pure ([], [])
  share_out expense_id payer paid_by ((p, user_id) ∷ ps) = do
    row ← on_error any_error (
        exec s (
          create_expense_participant (record {
            expense_id = expense_id;
            user_id = user_id;
            share_amount_minor = p.share_minor;
          })))
    debt ← owe expense_id payer paid_by p user_id
    rest ← share_out expense_id payer paid_by ps
    pure (participant_from_sqlc row ∷ rest.0, debt ++ rest.1)

  unfoldable pub create_body : CreateParams → Keys → Action ExpenseError CreatedExpense
  create_body params keys = do
    require_group_member keys.group_id keys.created_by forbidden
    require_group_member keys.group_id keys.paid_by payer_not_member
    require_all keys.group_id (order (map (λ (e : ParticipantShare × Uuid). e.1) keys.participants))
    expense ← on_error any_error (
        exec s (
          create_expense (record {
            group_id = keys.group_id;
            title = params.title;
            description = params.description;
            total_amount_minor = params.total_minor;
            currency = params.currency;
            paid_by = keys.paid_by;
            split_type = params.split_type;
            receipt_url = params.receipt_url;
            expense_date = params.expense_date;
            created_by = keys.created_by;
          })))
    made ← share_out expense.id params.paid_by keys.paid_by keys.participants
    pure (record { expense = expense_from_sqlc expense; participants = made.0; debts = made.1 })

  -- `Create`
  unfoldable pub create : CreateParams → Action ExpenseError CreatedExpense
  create params = do keys ← lift (parse_keys params); transaction s other (create_body params keys)
