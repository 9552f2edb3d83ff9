-- ===== src/Debts/Tests.antt =====
-- Runs of the debts component on the sample ledger.
use mlakp_backend.Base.{none}
use mlakp_backend.Text.{lit}
use mlakp_backend.Store.Keeps.{Keeps}
use mlakp_backend.Ledger.{IsLedger}
use mlakp_backend.Samples.{steady, scan_first}
use mlakp_backend.Debts.{ReviewRejectedParams}
use mlakp_backend.Debts.Repository.{review_rejected}
use mlakp_backend.Debts.Repository.Keeps.{review_rejected-Keeps}

abbrev resend_params : ReviewRejectedParams
resend_params = record { debt_id = lit "F"; reviewer_id = lit "B"; amount_minor = none }

review_rejected-Keeps_example : Keeps IsLedger (review_rejected steady scan_first resend_params)
review_rejected-Keeps_example = review_rejected-Keeps steady scan_first resend_params (λ h. cc)
