-- ===== src/Service.antt =====
-- The services on one database: the requests that change the ledger (the handlers of
-- internal/httpapi/handlers call one service method each), and the tables that they can reach.
mod Tests
use mlakp_backend.Base.{◌≡◌, refl, Bool, Option, List, [], ◌∷◌, Result}
use mlakp_backend.Text.{Text}
use mlakp_backend.Store.{Server, World, Db, Action, Uuid, Time}
use mlakp_backend.Store.Keeps.{Keeps}
use mlakp_backend.Ledger.{IsLedger}
use mlakp_backend.Payments.{MarkInput, BulkMarkInput, ReviewInput}
use mlakp_backend.Payments.Service as Payments
use mlakp_backend.Payments.Service.Laws.{
  mark-Keeps, bulk_mark-Keeps, confirm-Keeps, reject-Keeps, review-Keeps,
}
use mlakp_backend.Debts.{ReviewRejectedInput}
use mlakp_backend.Debts.Service as Debts
use mlakp_backend.Debts.Service.Laws.{transition-Keeps, review_rejected_service-Keeps}
use mlakp_backend.Expenses.{CreateInput}
use mlakp_backend.Expenses.Service as Expenses
use mlakp_backend.Expenses.Service.Laws.{create_service-Keeps}

pub data Request : Type 0 where
  mark : MarkInput → Request
  bulk_mark : BulkMarkInput → Request
  confirm : ReviewInput → Request
  reject : ReviewInput → Request
  review : ReviewInput → Request
  transition : Text → Text → Text → Request
  review_rejected : ReviewRejectedInput → Request
  create_expense : CreateInput → Request

module _ (scan : Text → Option Uuid) (order : List Uuid → List Uuid) (to_upper : Text → Text)
    (request_uri : Text → Option (Text × Text)) (parse_date : Text → Option Time)
    (has_notifier : Bool) where
  -- The world after a request, with a server of its own.
  pub serve : Server → Request → World → World
  serve s (mark input) w = (Payments.mark s scan has_notifier input w).1
  serve s (bulk_mark input) w = (Payments.bulk_mark s scan has_notifier input w).1
  serve s (confirm input) w = (Payments.confirm s scan has_notifier input w).1
  serve s (reject input) w = (Payments.reject s scan has_notifier input w).1
  serve s (review input) w = (Payments.review s scan has_notifier input w).1
  serve s (transition debt_id debtor_id kind) w =
      (Debts.transition s scan has_notifier debt_id debtor_id kind w).1
  serve s (review_rejected input) w = (Debts.review_rejected s scan has_notifier input w).1
  serve s (create_expense input) w =
      (Expenses.create s scan order to_upper request_uri parse_date has_notifier input w).1

  -- The worlds that a sequence of requests leads to.
  pub data Reaches (start : World) : World → Type 0 where
    nothing : Reaches start start
    then_one :
        (s : Server) (r : Request) {w : World} → Reaches start w → Reaches start (serve s r w)

  serve-IsLedger :
      (s : Server) (r : Request) (w : World) → IsLedger w.db → IsLedger (serve s r w).db
  unfolding serve
  serve-IsLedger s (mark input) w v = (mark-Keeps s scan has_notifier input).at w v
  serve-IsLedger s (bulk_mark input) w v = (bulk_mark-Keeps s scan has_notifier input).at w v
  serve-IsLedger s (confirm input) w v = (confirm-Keeps s scan has_notifier input).at w v
  serve-IsLedger s (reject input) w v = (reject-Keeps s scan has_notifier input).at w v
  serve-IsLedger s (review input) w v = (review-Keeps s scan has_notifier input).at w v
  serve-IsLedger s (transition debt_id debtor_id kind) w v =
      (transition-Keeps s scan has_notifier debt_id debtor_id kind).at w v
  serve-IsLedger s (review_rejected input) w v =
      (review_rejected_service-Keeps s scan has_notifier input).at w v
  serve-IsLedger s (create_expense input) w v =
      (create_service-Keeps s scan order to_upper request_uri parse_date has_notifier input).at w v

  -- Whatever requests arrive, and whatever the server does in each of them, a ledger stays one.
  pub Reaches-IsLedger : {start w : World} → IsLedger start.db → Reaches start w → IsLedger w.db
  Reaches-IsLedger v nothing = v
  Reaches-IsLedger v (then_one s r {w} before) = serve-IsLedger s r w (Reaches-IsLedger v before)
