-- ===== src/Sql/Keys.antt =====
-- UNIQUE constraints over a list of rows, and rows that no test finds.
use mlakp_backend.Base.{
  ◌≡◌, refl, Bool, true, false, not, ◌&&◌, ◌||◌, none, some, List, [], ◌∷◌, arith, Bool-cases, inl,
  inr,
}
use mlakp_backend.Sql.Rows.{find_row, update_rows, any_row, any_row_of_find, find_row_sound}

module _ {A : Type 0} where
  -- No two rows have the same key.
  unfoldable pub distinct : (A → A → Bool) → List A → Bool
  distinct same [] = true
  distinct same (r ∷ rows) = not (any_row (same r) rows) && distinct same rows

  -- What no row fits is not found by a test that asks for more.
  pub find_row-none :
      (p q : A → Bool) (rows : List A)
      → any_row q rows ≡ false
      → ((r : A) → p r ≡ true → q r ≡ true)
      → find_row p rows ≡ none
  unfolding find_row any_row
  find_row-none p q [] h k = refl
  find_row-none p q (r ∷ rows) h k = elim (Bool-cases (p r)) [
    | inl e ↦ let fits = k r e in absurd (ground arith)
    | inr e ↦ ground (arith, find_row-none p q rows)
  ]

  -- After an update no row is left open, where the only ones that it could leave so are bad, and no
  -- row was bad.
  pub update_rows-settles :
      (bad left p : A → Bool) (f : A → A) (rows : List A)
      → any_row bad rows ≡ false
      → ((r : A) → bad r ≡ false → p r ≡ true → left (f r) ≡ false)
      → ((r : A) → bad r ≡ false → p r ≡ false → left r ≡ false)
      → any_row left (update_rows p f rows) ≡ false
  unfolding any_row update_rows
  update_rows-settles bad left p f [] h hit miss = refl
  update_rows-settles bad left p f (r ∷ rows) h hit miss =
      let fine : bad r ≡ false = ground arith in
      let rest = update_rows-settles bad left p f rows (ground arith) hit miss in
      elim (Bool-cases (p r)) [
        | inl e ↦ let head = hit r fine e in rw (e, head, rest) refl
        | inr e ↦ let head = miss r fine e in rw (e, head, rest) refl
      ]

  -- No row fits after an update that makes none fit.
  pub update_rows-none :
      (q p : A → Bool) (f : A → A) (rows : List A)
      → any_row q rows ≡ false
      → ((r : A) → q r ≡ false → q (f r) ≡ false)
      → any_row q (update_rows p f rows) ≡ false
  update_rows-none q p f rows h k =
      update_rows-settles q q p f rows h (λ r fine e. k r fine) (λ r fine e. fine)

  pub any_row_never : (rows : List A) → any_row (λ (r : A). false) rows ≡ false
  unfolding any_row
  any_row_never [] = refl
  any_row_never (r ∷ rows) = any_row_never rows

  pub any_row_weaken :
      (p q : A → Bool) (rows : List A)
      → any_row q rows ≡ false
      → ((r : A) → p r ≡ true → q r ≡ true)
      → any_row p rows ≡ false
  unfolding any_row
  any_row_weaken p q [] h k = refl
  any_row_weaken p q (r ∷ rows) h k = elim (Bool-cases (p r)) [
    | inl e ↦ let fits = k r e in absurd (ground arith)
    | inr e ↦ ground (arith, any_row_weaken p q rows)
  ]

  -- An update that leaves the key of each row leaves the keys distinct.
  pub distinct-update_rows :
      (same : A → A → Bool) (p : A → Bool) (f : A → A) (rows : List A)
      → ((r x : A) → same r (f x) ≡ same r x)
      → ((r x : A) → same (f r) x ≡ same r x)
      → distinct same rows ≡ true
      → distinct same (update_rows p f rows) ≡ true
  unfolding distinct update_rows any_row
  distinct-update_rows same p f [] right left h = refl
  distinct-update_rows same p f (r ∷ rows) right left h =
      let rest = distinct-update_rows same p f rows right left (ground arith) in
      elim (Bool-cases (p r)) [
        | inl e ↦
            let apart =
              update_rows-none (same (f r)) p f rows
                (any_row_weaken (same (f r)) (same r) rows (ground arith)
                  (λ x hx. ground (arith, left r x)))
                (λ x hx. ground (arith, right (f r) x)) in
            rw (e, apart, rest) refl
        | inr e ↦
            let apart =
              update_rows-none (same r) p f rows (ground arith)
                (λ x hx. ground (arith, right r x)) in
            rw (e, apart, rest) refl
      ]

  -- A row that is found fits, wherever its key is used up: with distinct keys, an update of the row
  -- with a key to another key leaves no row with the old one.
  pub update_rows-rekey :
      (same : A → A → Bool) (q p : A → Bool) (f : A → A) (rows : List A) {r : A}
      → ((x y : A) → q x ≡ true → q y ≡ true → same x y ≡ true)
      → ((x : A) → p x ≡ true → q x ≡ true)
      → ((x : A) → q (f x) ≡ false)
      → distinct same rows ≡ true
      → find_row p rows ≡ some r
      → any_row q (update_rows p f rows) ≡ false
  unfolding distinct find_row update_rows any_row
  update_rows-rekey same q p f [] one sub gone keys found = cc
  update_rows-rekey same q p f (x ∷ rows) {r} one sub gone keys found = elim (Bool-cases (p x)) [
    | inl e ↦
        let fits = sub x e in
        let alone : any_row q rows ≡ false =
          any_row_weaken q (same x) rows (ground arith) (λ y hy. one x y fits hy) in
        let rest = update_rows-none q p f rows alone (λ y hy. gone y) in
        let head = gone x in rw (e, rest, head) refl
    | inr e ↦
        let later : find_row p rows ≡ some r = ground arith in
        let rest = update_rows-rekey same q p f rows one sub gone (ground arith) later in
        elim (Bool-cases (q x)) [
          | inl fits ↦
              let twin =
                any_row_of_find p (same x) rows later
                  (one x r fits (sub r (find_row_sound p rows later))) in
              absurd (ground arith)
          | inr other ↦ rw (e, rest, other) refl
        ]
  ]

  -- With distinct keys, the row that is found under a key is the only one under it.
  pub any_row-found :
      (same : A → A → Bool) (q t : A → Bool) (rows : List A) {r : A}
      → ((x y : A) → q x ≡ true → q y ≡ true → same x y ≡ true)
      → distinct same rows ≡ true
      → find_row q rows ≡ some r
      → t r ≡ false
      → any_row (λ x. q x && t x) rows ≡ false
  unfolding distinct find_row any_row
  any_row-found same q t [] one keys found fine = cc
  any_row-found same q t (x ∷ rows) {r} one keys found fine = elim (Bool-cases (q x)) [
    | inl e ↦
        let it : x ≡ r = ground arith in
        let alone : any_row (λ y. q y && t y) rows ≡ false =
          any_row_weaken (λ y. q y && t y) (same x) rows (ground arith)
            (λ y hy. one x y e (ground arith)) in
        rw (e, it, fine, alone) refl
    | inr e ↦
        let rest = any_row-found same q t rows {r = r} one (ground arith) (ground arith) fine in
        rw (e, rest) refl
  ]

  pub any_row-or :
      (p q : A → Bool) (rows : List A)
      → any_row p rows ≡ false
      → any_row q rows ≡ false
      → any_row (λ r. p r || q r) rows ≡ false
  unfolding any_row
  any_row-or p q [] h k = refl
  any_row-or p q (r ∷ rows) h k = ground (arith, any_row-or p q rows)
