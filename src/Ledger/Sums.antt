-- ===== src/Ledger/Sums.antt =====
-- The sums of payments under an update of one payment, and keys.
use mlakp_backend.Base.{
  ◌+◌, ◌≡◌, ◌≢◌, refl, ap, Bool, true, false, List, [], ◌∷◌, All, All-map, ◌∙◌, ◌==◌, arith, some,
  Bool-cases, inl, inr, if◌then◌else◌, ==→eq,
}
use mlakp_backend.Store.{Uuid, DebtRow, PaymentRow}
use mlakp_backend.Sql.Rows.{any_row, any_row-update_rows, find_row, update_rows}
use mlakp_backend.Sql.Debts.{debt_has_id}
use mlakp_backend.Sql.Payments.{sum_amounts, awaits, payment_has_id, may_review}
use mlakp_backend.Ledger.{DebtKeys, PaymentKeys}

pub no_debt :
    (id : Uuid) (debts : List DebtRow)
    → any_row (debt_has_id id) debts ≡ false
    → All (λ e. e.id ≢ id) debts
unfolding any_row
no_debt id [] h = tt
no_debt id (x ∷ debts) h = (λ q. ground arith, no_debt id debts (ground arith))

-- Under a key every row with the key of a found row is that row.
pub only_debt :
    (id : Uuid) (debts : List DebtRow) {d : DebtRow}
    → DebtKeys debts
    → find_row (debt_has_id id) debts ≡ some d
    → All (λ e. e.id ≡ id → e ≡ d) debts
unfolding find_row
only_debt id [] keys h = tt
only_debt id (x ∷ debts) {d} (new, keys) h = elim (Bool-cases (x.id == id)) [
  | inl e ↦
      let same : x ≡ d = ground arith in
      let absent : any_row (debt_has_id id) debts ≡ false = rw (==→eq x.id id e) at new in
      (λ _. same, All-map _ _ debts (λ y ne q. absurd (ne q)) (no_debt id debts absent))
  | inr e ↦
      let later : find_row (debt_has_id id) debts ≡ some d = ground arith in
      (λ q. absurd (ground arith), only_debt id debts keys later)
]

module _ (f : PaymentRow → PaymentRow) (pid : Uuid) where
  update_absent :
      (q : PaymentRow → Bool) (payments : List PaymentRow)
      → any_row (payment_has_id pid) payments ≡ false
      → sum_amounts q (update_rows (may_review pid) f payments) ≡ sum_amounts q payments
  unfolding sum_amounts any_row update_rows
  update_absent q [] h = refl
  update_absent q (p ∷ payments) h = ground (arith, update_absent q payments)

  update_present :
      (q : PaymentRow → Bool) (x : PaymentRow) (payments : List PaymentRow)
      → may_review pid x ≡ true
      → any_row (payment_has_id pid) payments ≡ false
      → sum_amounts q (update_rows (may_review pid) f (x ∷ payments))
          + (if q x then x.amount_minor else 0)
        ≡ sum_amounts q (x ∷ payments) + (if q (f x) then (f x).amount_minor else 0)
  unfolding sum_amounts update_rows
  update_present q x payments m absent = rw m (omega (arith, update_absent q payments absent))

  -- Only the found payment changes, so a sum changes by its part alone.
  pub sum-update :
      (q : PaymentRow → Bool) (payments : List PaymentRow) {p : PaymentRow}
      → PaymentKeys payments
      → find_row (payment_has_id pid) payments ≡ some p
      → awaits p.status ≡ true
      → sum_amounts q (update_rows (may_review pid) f payments)
          + (if q p then p.amount_minor else 0)
        ≡ sum_amounts q payments + (if q (f p) then (f p).amount_minor else 0)
  unfolding sum_amounts find_row update_rows
  sum-update q [] keys h w = absurd (cc)
  sum-update q (x ∷ payments) {p} (new, keys) h w = elim (Bool-cases (x.id == pid)) [
    | inl e ↦
        let same : x ≡ p = ground arith in
        let absent : any_row (payment_has_id pid) payments ≡ false = rw (==→eq x.id pid e) at new in
        let waits : awaits x.status ≡ true = rw same w in
        rw (← same) (update_present q x payments (ground arith) absent)
    | inr e ↦
        let later : find_row (payment_has_id pid) payments ≡ some p = ground arith in
        let m : may_review pid x ≡ false = ground arith in
        rw m (omega (arith, sum-update q payments keys later w))
  ]

pub PaymentKeys-update :
    (q : PaymentRow → Bool) (f : PaymentRow → PaymentRow) (payments : List PaymentRow)
    → ((p : PaymentRow) → (f p).id ≡ p.id)
    → PaymentKeys payments
    → PaymentKeys (update_rows q f payments)
unfolding update_rows
PaymentKeys-update q f [] same keys = tt
PaymentKeys-update q f (p ∷ payments) same (new, keys) =
    let kept : (if q p then f p else p).id ≡ p.id = ground (arith, same p) in
    (
      rw kept (
          any_row-update_rows (payment_has_id p.id) q f payments (λ r. ap (λ i. i == p.id) (same r))
          ∙ new),
      PaymentKeys-update q f payments same keys,
    )

pub DebtKeys-update :
    (q : DebtRow → Bool) (f : DebtRow → DebtRow) (debts : List DebtRow)
    → ((d : DebtRow) → (f d).id ≡ d.id)
    → DebtKeys debts
    → DebtKeys (update_rows q f debts)
unfolding update_rows
DebtKeys-update q f [] same keys = tt
DebtKeys-update q f (d ∷ debts) same (new, keys) =
    let kept : (if q d then f d else d).id ≡ d.id = ground (arith, same d) in
    (
      rw kept (
          any_row-update_rows (debt_has_id d.id) q f debts (λ r. ap (λ i. i == d.id) (same r))
          ∙ new),
      DebtKeys-update q f debts same keys,
    )
