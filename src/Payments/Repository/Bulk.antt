-- ===== src/Payments/Repository/Bulk.antt =====
-- `BulkMark` of internal/payments/repository.go against the ledger, and its amounts.
use mlakp_backend.Base.{
  ℕ, ◌+◌, ◌-◌, ◌%◌, ◌^◌, ◌≤◌, ◌≡◌, ◌≢◌, subst, sym, ap, false, ok, List, [], ◌∷◌, All, All-zip,
  arith, ◌==◌, ==_of_ne, Bool-cases, inl, inr, ltb, Option, if◌then◌else◌,
}
use mlakp_backend.Text.{Text}
use mlakp_backend.Store.{Server, Action, World, Uuid, Time, Db, DebtRow, PaymentRow}
use mlakp_backend.Store.Spec.{
  Ensures, by_bind, by_pure, by_throw_if, by_exec, by_on_error, by_fact, weaken, strengthen,
}
use mlakp_backend.Store.Invariants.{validated_invariant, validated_returns}
use mlakp_backend.Sql.Payments.{
  sum_amounts, create_payment, CreatePaymentParams, new_payment, list_bulk_payment_debts_for_update,
}
use mlakp_backend.Ledger.{IsLedger, DebtKeys}
use mlakp_backend.Ledger.Sums.{no_debt}
use mlakp_backend.Ledger.Payments.{create_payment_ok, create_payment-IsLedger}
use mlakp_backend.Payments.{
  Payment, payment_from_sqlc, BulkMarkParams, PaymentError, invalid_user_id, invalid_receiver_id,
  other, not_found, amount_exceeds_remaining, any_error,
}
use mlakp_backend.Payments.Repository.{
  parse_pair_uuids, total_available, exceeds, is_none, allocate, allocate_round, bulk_mark_body,
  bulk_mark,
}
use mlakp_backend.Payments.Repository.Candidates.{IsCandidate, list_bulk_candidates}

-- The amounts of payments, and what is left of debts, added up with no word size.
abbrev pub sum_created : List Payment → ℕ
sum_created [] = 0
sum_created (p ∷ created) = p.amount_minor + sum_created created

abbrev pub sum_remaining : List DebtRow → ℕ
sum_remaining [] = 0
sum_remaining (d ∷ debts) = d.remaining_amount_minor + sum_remaining debts

total_available_le :
    (debts : List DebtRow) (acc : ℕ) → total_available debts acc ≤ acc + sum_remaining debts
unfolding total_available
total_available_le [] acc = omega arith
total_available_le (d ∷ debts) acc =
    omega (arith, total_available_le debts ((acc + d.remaining_amount_minor) % 2 ^ 64))

-- What is known before a round, of the debts that are still to come.
abbrev Before : Uuid → Uuid → List DebtRow → Db → Type 0
Before user_id received_by debts db =
    IsLedger db × All (IsCandidate db user_id received_by) debts × DebtKeys debts

abbrev round_params : BulkMarkParams → Uuid → Uuid → DebtRow → ℕ → CreatePaymentParams
round_params params user_id received_by d amount = record {
  debt_id = d.id;
  paid_by = user_id;
  received_by = received_by;
  amount_minor = amount;
  note = params.note;
}

-- A payment for one candidate leaves the others candidates.
still_candidates :
    (params : BulkMarkParams) (user_id received_by : Uuid) (d : DebtRow) (amount : ℕ) (id : Uuid)
    (now : Time) (db : Db) (debts : List DebtRow)
    → All (λ e. e.id ≢ d.id) debts
    → All (IsCandidate db user_id received_by) debts
    → All
        (IsCandidate
          (record db {
            payments =
                new_payment (round_params params user_id received_by d amount) id now ∷ db.payments;
          })
          user_id
          received_by)
        debts
unfolding sum_amounts
still_candidates params user_id received_by d amount id now db debts = All-zip _ _ _ debts λ e ne c.
    record {
      stored = c.stored;
      owed = c.owed;
      due = c.due;
      open_debt = c.open_debt;
      idle = rw (==_of_ne d.id e.id (λ q. ne (sym q))) (omega (arith, c.idle));
    }

round_step :
    (params : BulkMarkParams) (user_id received_by : Uuid) (d : DebtRow) (debts : List DebtRow)
    (amount : ℕ) (id : Uuid) (now : Time) (db db' : Db) (p : PaymentRow)
    → amount ≤ d.remaining_amount_minor
    → Before user_id received_by (d ∷ debts) db
    → create_payment (round_params params user_id received_by d amount) id now db ≡ ok (p, db')
    → Before user_id received_by debts db' × (p.amount_minor ≡ amount)
round_step params user_id received_by d debts amount id now db db' p small
      (v, (c, others), (new, keys)) h =
    let (_, _, made, same) =
      create_payment_ok (round_params params user_id received_by d amount) id now db h in
    let kept =
      create_payment-IsLedger (round_params params user_id received_by d amount) id now db d v
        c.stored (c.open_debt, omega (arith, c.idle)) c.owed c.due h in
    let rest =
      still_candidates params user_id received_by d amount id now db debts (no_debt d.id debts new)
        others in
    (
      (kept, subst (λ x. All (IsCandidate x user_id received_by) debts) same rest, keys),
      ap (λ (x : PaymentRow). x.amount_minor) made,
    )

-- What the debts cover of an amount, the loop allocates.
abbrev Allocates : ℕ → List DebtRow → List Payment → Db → Type 0
Allocates remaining debts created db =
    IsLedger db × (remaining ≤ sum_remaining debts → sum_created created ≡ remaining)

taken : ℕ → DebtRow → ℕ
taken remaining d =
    if ltb remaining d.remaining_amount_minor then remaining else d.remaining_amount_minor

taken_le :
    (remaining : ℕ) (d : DebtRow)
    → (taken remaining d ≤ d.remaining_amount_minor) × (taken remaining d ≤ remaining)
unfolding taken
taken_le remaining d = ground arith

taken_rest :
    (remaining rest : ℕ) (d : DebtRow)
    → remaining ≤ d.remaining_amount_minor + rest
    → remaining - taken remaining d ≤ rest
unfolding taken
taken_rest remaining rest d h = ground arith

module _ (s : Server) (scan : Text → Option Uuid) (params : BulkMarkParams)
    (user_id received_by : Uuid) where
  round-Ensures :
      (d : DebtRow) (debts : List DebtRow) (remaining : ℕ)
      (later : Action PaymentError (List Payment))
      → Ensures
          (Before user_id received_by debts)
          later
          (Allocates (remaining - taken remaining d) debts)
          (λ _. Unit {0})
      → Ensures
          (Before user_id received_by (d ∷ debts))
          (allocate_round s scan params user_id received_by d (taken remaining d) later)
          (Allocates remaining (d ∷ debts))
          (λ _. Unit {0})
  unfolding allocate_round payment_from_sqlc
  round-Ensures d debts remaining later rest =
      let (small, part) = taken_le remaining d in
      by_bind
        (by_on_error any_error (
          by_exec s
            {Q = λ p db. Before user_id received_by debts db × (p.amount_minor ≡ taken remaining d)}
            (create_payment (round_params params user_id received_by d (taken remaining d))) tt
            (λ id now db p db' before h.
              round_step params user_id received_by d debts (taken remaining d) id now db db' p
                small before h)
            (λ _ _ _ _ _ _. tt)))
        (λ p.
          by_fact (p.amount_minor ≡ taken remaining d) (λ db (_, made). made)
            λ made. by_bind (weaken (λ db (before, _). before) rest) λ created.
              by_pure (payment_from_sqlc p ∷ created) (λ db (v, exact). (
                v,
                λ covered.
                    omega (arith, exact (taken_rest remaining (sum_remaining debts) d covered)),
              )))

  allocate-Ensures :
      (debts : List DebtRow) (remaining : ℕ)
      → Ensures
          (Before user_id received_by debts)
          (allocate s scan params user_id received_by debts remaining)
          (Allocates remaining debts)
          (λ _. Unit {0})
  unfolding allocate taken
  allocate-Ensures [] remaining = by_pure [] (λ db (v, _, _). (v, λ h. omega arith))
  allocate-Ensures (d ∷ debts) remaining =
      let ih = allocate-Ensures debts (remaining - taken remaining d) in
      elim (Bool-cases (remaining == 0)) [
        | inl e ↦ rw e (by_pure [] (λ db (v, _, _). (v, λ h. ground arith)))
        | inr e ↦ rw e (round-Ensures d debts remaining _ ih)
      ]

  -- All of the amount, on success, since it does not exceed what the debts leave.
  bulk_mark_body-Ensures :
      Ensures IsLedger
        (bulk_mark_body s scan params user_id received_by)
        (λ created db. IsLedger db × (sum_created created ≡ params.amount_minor))
        (λ _. Unit {0})
  unfolding bulk_mark_body
  bulk_mark_body-Ensures =
      by_bind
        (by_on_error any_error (
          by_exec s {Q = λ debts db. Before user_id received_by debts db}
            (list_bulk_payment_debts_for_update user_id received_by) tt
            (λ id now db debts db' v h.
              let (same, all, keys) = list_bulk_candidates user_id received_by id now db v h in
              subst (λ x. Before user_id received_by debts x) same (v, all, keys))
            (λ _ _ _ _ _ _. tt)))
        (λ debts. by_bind (by_throw_if (is_none debts) not_found (λ _ _ _. tt)) λ _.
          by_bind
            (by_throw_if (exceeds params.amount_minor (total_available debts 0))
              amount_exceeds_remaining (λ _ _ _. tt))
            λ _.
              by_fact (exceeds params.amount_minor (total_available debts 0) ≡ false)
                (λ db (_, covered). covered)
                λ covered.
                  weaken (λ db ((before, _), _). before)
                    (strengthen (λ created db (v, exact). (v, exact (covers debts covered)))
                      (allocate-Ensures debts params.amount_minor)))
    where
      covers :
          (debts : List DebtRow)
          → exceeds params.amount_minor (total_available debts 0) ≡ false
          → params.amount_minor ≤ sum_remaining debts
      covers debts h = ground (arith, total_available_le debts 0)

module _ (s : Server) (scan : Text → Option Uuid) where
  -- Marking in bulk keeps the ledger.
  pub bulk_mark-keeps :
      (params : BulkMarkParams) (w : World)
      → IsLedger w.db
      → IsLedger (bulk_mark s scan params w).1.db
  unfolding bulk_mark
  bulk_mark-keeps params w v =
      validated_invariant s IsLedger other
        (parse_pair_uuids s scan params.user_id params.received_by invalid_user_id
          invalid_receiver_id)
        (λ ids. bulk_mark_body s scan params ids.0 ids.1)
        (λ ids.
          strengthen (λ created db (v', _). v') (bulk_mark_body-Ensures s scan params ids.0 ids.1))
        w v

  -- On a ledger, the payments that a bulk mark returns add up to the amount that was asked for.
  pub bulk_mark_amount :
      (params : BulkMarkParams) (w : World) {created : List Payment}
      → IsLedger w.db
      → (bulk_mark s scan params w).0 ≡ ok created
      → sum_created created ≡ params.amount_minor
  unfolding bulk_mark
  bulk_mark_amount params w v h =
      (validated_returns s IsLedger _ other
        (parse_pair_uuids s scan params.user_id params.received_by invalid_user_id
          invalid_receiver_id)
        (λ ids. bulk_mark_body s scan params ids.0 ids.1)
        (λ ids _. bulk_mark_body-Ensures s scan params ids.0 ids.1) w v h).1
