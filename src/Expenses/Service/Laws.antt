-- ===== src/Expenses/Service/Laws.antt =====
-- The service of internal/expenses/service.go against the ledger.
use mlakp_backend.Base.{Bool, Option, List, [], ◌∷◌}
use mlakp_backend.Text.{Text}
use mlakp_backend.Store.{Server, Uuid, Time, pure, notify, ◌>>=◌}
use mlakp_backend.Store.Keeps.{Keeps, bind-Keeps, notify-Keeps, pure-Keeps, validated-Keeps}
use mlakp_backend.Ledger.{IsLedger}
use mlakp_backend.Expenses.{CreateInput, Debt}
use mlakp_backend.Expenses.Repository
use mlakp_backend.Expenses.Repository.Keeps.{create-keeps}
use mlakp_backend.Expenses.Validation.{validate_create_input}
use mlakp_backend.Expenses.Service.{create, notify_debtors, created_notice}

module _ (s : Server) (scan : Text → Option Uuid) (order : List Uuid → List Uuid)
    (to_upper : Text → Text) (request_uri : Text → Option (Text × Text))
    (parse_date : Text → Option Time) (has_notifier : Bool) where
  notify_debtors-Keeps :
      (debts : List Debt)
      → Keeps IsLedger
          (notify_debtors s scan order to_upper request_uri parse_date has_notifier debts)
  unfolding notify_debtors
  notify_debtors-Keeps [] = pure-Keeps tt
  notify_debtors-Keeps (d ∷ debts) =
      bind-Keeps
        {f = λ _. notify_debtors s scan order to_upper request_uri parse_date has_notifier debts}
        {m = notify has_notifier (created_notice d)} (notify-Keeps has_notifier (created_notice d))
        (λ _. notify_debtors-Keeps debts)

  pub create_service-Keeps :
      (input : CreateInput)
      → Keeps IsLedger (create s scan order to_upper request_uri parse_date has_notifier input)
  unfolding create
  create_service-Keeps input =
      validated-Keeps (validate_create_input to_upper request_uri parse_date input) _ (λ params.
        bind-Keeps
          {f = λ c.
            notify_debtors s scan order to_upper request_uri parse_date has_notifier c.debts
            >>= λ _. pure c}
          {m = Repository.create s scan order params}
          (record { at = λ w v. create-keeps s scan order params w v })
          (λ c.
            bind-Keeps {f = λ _. pure c}
              {m = notify_debtors s scan order to_upper request_uri parse_date has_notifier c.debts}
              (notify_debtors-Keeps c.debts) (λ _. pure-Keeps c)))
