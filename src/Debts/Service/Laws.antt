-- ===== src/Debts/Service/Laws.antt =====
-- The service of internal/debts/service.go against the ledger.
use mlakp_backend.Base.{◌≡◌, Option, Bool, Bool-cases, inl, inr, ok, Result, Result-cases}
use mlakp_backend.Text.{Text, lit, trim_space, text_eq}
use mlakp_backend.Store.{Server, Action, Uuid, Db, lift, ◌>>=◌}
use mlakp_backend.Store.Keeps.{Keeps, validated-Keeps, and_notify-Keeps}
use mlakp_backend.Ledger.{IsLedger}
use mlakp_backend.Debts.{ReviewRejectedInput}
use mlakp_backend.Debts.Repository
use mlakp_backend.Debts.Repository.Keeps.{accept-Keeps, reject-Keeps, review_rejected-Keeps}
use mlakp_backend.Debts.Validation.{validate_transition_input, validate_review_rejected_input}
use mlakp_backend.Debts.Validation.Laws.{adjusted_positive}
use mlakp_backend.Debts.Service.{
  run_transition, transition, review_rejected, accepted_notice, rejected_notice, resent_notice,
}

-- The rest of the method may use what the validation ensures.
checked_Keeps :
    {E A B : Type 0} {P : Db → Type 0} (r : Result E A) (f : A → Action E B)
    → ((a : A) → r ≡ ok a → Keeps P (f a))
    → Keeps P (lift r >>= f)
checked_Keeps {P = P} r f k = elim (Result-cases r) [
  | inl (a, e) ↦ rw e (record { at = (k a e).at })
  | inr (x, e) ↦ rw e (record { at = λ w p. p })
]

module _ (s : Server) (scan : Text → Option Uuid) (has_notifier : Bool) where
  run_transition-Keeps :
      (debt_id debtor_id transition_type : Text)
      → Keeps IsLedger (run_transition s scan has_notifier debt_id debtor_id transition_type)
  unfolding run_transition
  run_transition-Keeps debt_id debtor_id transition_type =
      let yes =
        and_notify-Keeps (Repository.accept s scan debt_id debtor_id) has_notifier accepted_notice
          (accept-Keeps s scan debt_id debtor_id) in
      let no =
        and_notify-Keeps (Repository.reject s scan debt_id debtor_id) has_notifier rejected_notice
          (reject-Keeps s scan debt_id debtor_id) in
      elim (Bool-cases (text_eq transition_type (lit "accept"))) [
        | inl e ↦ rw e yes
        | inr e ↦ elim (Bool-cases (text_eq transition_type (lit "reject"))) [
          | inl f ↦ rw (e, f) no
          | inr f ↦ rw (e, f) (record { at = λ w v. v })
        ]
      ]

  pub transition-Keeps :
      (debt_id debtor_id transition_type : Text)
      → Keeps IsLedger (transition s scan has_notifier debt_id debtor_id transition_type)
  unfolding transition
  transition-Keeps debt_id debtor_id transition_type =
      validated-Keeps (validate_transition_input debt_id debtor_id) _
        (λ ids. run_transition-Keeps ids.0 ids.1 (trim_space transition_type))

  pub review_rejected_service-Keeps :
      (input : ReviewRejectedInput) → Keeps IsLedger (review_rejected s scan has_notifier input)
  unfolding review_rejected
  review_rejected_service-Keeps input =
      checked_Keeps (validate_review_rejected_input input) _ (λ params e.
        and_notify-Keeps (Repository.review_rejected s scan params) has_notifier resent_notice
          (review_rejected-Keeps s scan params (adjusted_positive input e)))
