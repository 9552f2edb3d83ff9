-- ===== src/Service/Tests.antt =====
-- A request to the sample ledger.
use mlakp_backend.Text.{lit}
use mlakp_backend.Ledger.{IsLedger}
use mlakp_backend.Samples.{
  steady, scan_first, same_order, same_text, no_uri, no_date, small_world, small_db-IsLedger,
}
use mlakp_backend.Base.{true}
use mlakp_backend.Service.{Request, confirm, serve, nothing, then_one, Reaches-IsLedger}

abbrev confirmation : Request
confirmation = confirm (record { payment_id = lit "P"; user_id = lit "B"; type = lit "" })

Reaches-IsLedger_example :
    IsLedger
      (serve scan_first same_order same_text no_uri no_date true steady confirmation small_world).db
Reaches-IsLedger_example =
    Reaches-IsLedger scan_first same_order same_text no_uri no_date true small_db-IsLedger
      (then_one steady confirmation nothing)
