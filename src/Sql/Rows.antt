-- ===== src/Sql/Rows.antt =====
-- `SELECT ... WHERE`, `UPDATE ... WHERE ... RETURNING` and `EXISTS` over a list of rows.
use mlakp_backend.Base.{
  ◌≡◌, refl, subst, Bool, true, false, ◌||◌, Option, none, some, List, [], ◌∷◌, arith, All,
  if◌then◌else◌, Bool-cases, inl, inr,
}

module _ {A : Type 0} where
  -- The first row that fits.
  unfoldable pub find_row : (A → Bool) → List A → Option A
  find_row p [] = none
  find_row p (r ∷ rows) = if p r then some r else find_row p rows

  -- `SET` at every row that fits.
  unfoldable pub update_rows : (A → Bool) → (A → A) → List A → List A
  update_rows p f [] = []
  update_rows p f (r ∷ rows) = (if p r then f r else r) ∷ update_rows p f rows

  unfoldable pub any_row : (A → Bool) → List A → Bool
  any_row p [] = false
  any_row p (r ∷ rows) = p r || any_row p rows

  unfoldable pub select_rows : (A → Bool) → List A → List A
  select_rows p [] = []
  select_rows p (r ∷ rows) = let rest = select_rows p rows in if p r then r ∷ rest else rest

  pub find_row_sound :
      (p : A → Bool) (rows : List A) {r : A} → find_row p rows ≡ some r → p r ≡ true
  unfolding find_row
  find_row_sound p [] h = cc
  find_row_sound p (x ∷ rows) {r} h = ground (arith, find_row_sound p rows {r = r})

  -- What holds of every row holds of the one that is found.
  pub find_row-All :
      (P : A → Type 0) (p : A → Bool) (rows : List A) {r : A}
      → All P rows
      → find_row p rows ≡ some r
      → P r
  unfolding find_row
  find_row-All P p [] all h = cc
  find_row-All P p (x ∷ rows) {r} (px, all) h = elim (Bool-cases (p x)) [
    | inl e ↦ let same : x ≡ r = ground arith in subst P same px
    | inr e ↦ find_row-All P p rows all (ground arith)
  ]

  -- An update keeps what holds of every row, where it keeps it at the rows that fit.
  pub update_rows-All :
      (P Q : A → Type 0) (p : A → Bool) (f : A → A) (rows : List A)
      → All P rows
      → ((r : A) → P r → p r ≡ true → Q (f r))
      → ((r : A) → P r → p r ≡ false → Q r)
      → All Q (update_rows p f rows)
  unfolding update_rows
  update_rows-All P Q p f [] all h k = tt
  update_rows-All P Q p f (x ∷ rows) (px, all) h k = elim (Bool-cases (p x)) [
    | inl e ↦ rw e (h x px e, update_rows-All P Q p f rows all h k)
    | inr e ↦ rw e (k x px e, update_rows-All P Q p f rows all h k)
  ]

  -- An update does not change which rows fit a test that it does not touch.
  pub any_row-update_rows :
      (q p : A → Bool) (f : A → A) (rows : List A)
      → ((r : A) → q (f r) ≡ q r)
      → any_row q (update_rows p f rows) ≡ any_row q rows
  unfolding any_row update_rows
  any_row-update_rows q p f [] h = refl
  any_row-update_rows q p f (x ∷ rows) h = ground (arith, any_row-update_rows q p f rows h, h x)

  -- A found row is a witness for any test that it passes.
  pub any_row_of_find :
      (p q : A → Bool) (rows : List A) {r : A}
      → find_row p rows ≡ some r
      → q r ≡ true
      → any_row q rows ≡ true
  unfolding find_row any_row
  any_row_of_find p q [] h w = cc
  any_row_of_find p q (x ∷ rows) {r} h w = elim (Bool-cases (p x)) [
    | inl e ↦ let same : x ≡ r = ground arith in rw (same, w) refl
    | inr e ↦ ground (arith, any_row_of_find p q rows {r = r})
  ]

  pub select_rows-All :
      (P Q : A → Type 0) (p : A → Bool) (rows : List A)
      → All P rows
      → ((r : A) → P r → p r ≡ true → Q r)
      → All Q (select_rows p rows)
  unfolding select_rows
  select_rows-All P Q p [] all h = tt
  select_rows-All P Q p (x ∷ rows) (px, all) h = elim (Bool-cases (p x)) [
    | inl e ↦ rw e (h x px e, select_rows-All P Q p rows all h)
    | inr e ↦ rw e (select_rows-All P Q p rows all h)
  ]

  pub any_row-select_rows :
      (q p : A → Bool) (rows : List A)
      → any_row q rows ≡ false
      → any_row q (select_rows p rows) ≡ false
  unfolding any_row select_rows
  any_row-select_rows q p [] h = refl
  any_row-select_rows q p (x ∷ rows) h = ground (arith, any_row-select_rows q p rows)
