-- ===== src/Expenses/Shares/Laws.antt =====
-- What `buildParticipantShares` (internal/expenses/service.go) returns.
use mlakp_backend.Base.{
  ok_injective, ◌≡◌, ◌≢◌, refl, sym, ap, ◌∙◌, subst, ℕ, suc, ◌≤◌, ◌<◌, true, false, not, Option,
  none, some, List, [], ◌∷◌, Result, ok, err, bind_ok, fail_if, or_else, pos, map, length, sum, All,
  All-map, arith, Bool-cases, Result-cases, inl, inr,
}
use mlakp_backend.Text.{Text, lit, trim_space, is_empty, text_eq}
use mlakp_backend.Text.Laws.{text_eq_sound, text_eq_refl}
use mlakp_backend.Decimal.{max_int64}
use mlakp_backend.Money.{
  MoneyError, IsInt64, parse_minor, validate_positive, split_equal, validate_manual_split,
}
use mlakp_backend.Money.Parse.{parse_minor_sound}
use mlakp_backend.Money.Split.{split_equal_sound}
use mlakp_backend.Money.Manual.{validate_manual_split_sound}
use mlakp_backend.Expenses.{
  ParticipantInput, ParticipantShare, invalid_participant, no_debtor_participant,
  invalid_manual_share,
}
use mlakp_backend.Expenses.Shares.{
  has_seen, collect_ids, has_debtor, with_shares, manual_share, manual_shares, map_error,
  equal_participants, manual_participants, split_shares, build_participant_shares,
}

abbrev pub ids : List ParticipantShare → List Text
ids = map (λ (p : ParticipantShare). p.user_id)

abbrev pub amounts : List ParticipantShare → List ℕ
amounts = map (λ (p : ParticipantShare). p.share_minor)

-- No text stands in the list twice.
abbrev pub Distinct : List Text → Type 0
Distinct [] = Unit
Distinct (t ∷ ts) = (has_seen t ts ≡ false) × Distinct ts

unseen :
    (t : Text) (ts seen : List Text)
    → All (λ u. has_seen u (t ∷ seen) ≡ false) ts
    → has_seen t ts ≡ false
unfolding has_seen
unseen t [] seen all = refl
unseen t (u ∷ ts) seen (h, all) = elim (Bool-cases (text_eq t u)) [
  | inl e ↦
      let twin : text_eq u t ≡ true = rw (text_eq_sound t u e) (text_eq_refl u) in
      absurd (ground arith)
  | inr e ↦ rw e (unseen t ts seen all)
]

collect_ids_ok :
    (inputs : List ParticipantInput) (seen : List Text) {ts : List Text}
    → collect_ids inputs seen ≡ ok ts
    → (ts ≡ map (λ (i : ParticipantInput). trim_space i.user_id) inputs)
      × Distinct ts
      × All (λ t. t ≢ []) ts
      × All (λ t. has_seen t seen ≡ false) ts
unfolding collect_ids has_seen
collect_ids_ok [] seen {ts} h = let same : ts ≡ [] = cc in rw same (refl, tt, tt, tt)
collect_ids_ok (i ∷ inputs) seen {ts} h =
    let t = trim_space i.user_id in
    let filled : is_empty t ≡ false = ground arith in
    let new : has_seen t seen ≡ false = ground arith in
    elim (Result-cases (collect_ids inputs (t ∷ seen))) [
      | inr (x, e) ↦ absurd (ground arith)
      | inl (us, e) ↦
          let same : t ∷ us ≡ ts = ground arith in
          let (listed, apart, all, fresh) = collect_ids_ok inputs (t ∷ seen) e in
          rw (sym same) (
            ap (λ us. t ∷ us) listed,
            (unseen t us seen fresh, apart),
            ((λ nothing. ground arith), all),
            (new, All-map _ _ us (λ u h. later u t seen h) fresh),
          )
    ]
  where
    later :
        (u t : Text) (seen : List Text) → has_seen u (t ∷ seen) ≡ false → has_seen u seen ≡ false
    later u t seen h = ground arith

length-map : {A B : Type 0} (f : A → B) (xs : List A) → length (map f xs) ≡ length xs
length-map f [] = refl
length-map f (x ∷ xs) = ap suc (length-map f xs)

with_shares_ok :
    (ts : List Text) (ns : List ℕ)
    → length ns ≡ length ts
    → (ids (with_shares ts ns) ≡ ts) × (amounts (with_shares ts ns) ≡ ns)
unfolding with_shares
with_shares_ok [] [] h = (refl, refl)
with_shares_ok [] (n ∷ ns) h = absurd (omega (arith, h))
with_shares_ok (t ∷ ts) [] h = absurd (omega (arith, h))
with_shares_ok (t ∷ ts) (n ∷ ns) h =
    let (same, exact) = with_shares_ok ts ns (omega (arith, h)) in
    (ap (λ us. t ∷ us) same, ap (λ us. n ∷ us) exact)

-- The participants of a split of the total.
abbrev IsSplit : ℕ → List Text → List ParticipantShare → Type 0
IsSplit total ts ps = (ids ps ≡ ts) × (sum (amounts ps) ≡ total) × All (λ n. 0 < n) (amounts ps)

IsSplit-of :
    (total : ℕ) (ts : List Text) (ns : List ℕ) (ps : List ParticipantShare)
    → length ns ≡ length ts
    → sum ns ≡ total
    → All (λ n. 0 < n) ns
    → with_shares ts ns ≡ ps
    → IsSplit total ts ps
IsSplit-of total ts ns ps h exact each same =
    let (listed, shared) = with_shares_ok ts ns h in
    subst (IsSplit total ts) same
      (listed, ap sum shared ∙ exact, subst (All (λ n. 0 < n)) (sym shared) each)

pos_injective : (a b : ℕ) → pos a ≡ pos b → a ≡ b
pos_injective a b h = cc

map_pos_injective : (a b : List ℕ) → map pos a ≡ map pos b → a ≡ b
map_pos_injective [] [] h = refl
map_pos_injective [] (y ∷ b) h = absurd (cc)
map_pos_injective (x ∷ a) [] h = absurd (cc)
map_pos_injective (x ∷ a) (y ∷ b) h =
    let head : pos x ≡ pos y = cc in
    let tail : map pos a ≡ map pos b = cc in
    rw (pos_injective x y head, map_pos_injective a b tail) refl

or_else_ok : {E F A : Type 0} (r : Result E A) (f : F) {a : A} → or_else r f ≡ ok a → r ≡ ok a
or_else_ok (ok x) f h = cc
or_else_ok (err e) f h = absurd (cc)

map_error_ok : (r : Result MoneyError (Unit {0})) → map_error r ≡ ok tt → r ≡ ok tt
map_error_ok (ok x) h = refl
map_error_ok (err e) h = absurd (cc)

manual_share_fits : (o : Option Text) {n : ℕ} → manual_share o ≡ ok n → n ≤ max_int64
unfolding manual_share
manual_share_fits none h = absurd (cc)
manual_share_fits (some text) h =
    let (m, e, h1) = bind_ok (or_else (parse_minor text) invalid_manual_share) _ h in
    let (_, positive, h2) =
      bind_ok (or_else (validate_positive (pos m)) invalid_manual_share) _ h1 in
    let (_, fits) = parse_minor_sound text (or_else_ok (parse_minor text) invalid_manual_share e) in
    let same = ok_injective h2 in omega (arith, fits, same)

manual_shares_ok :
    (inputs : List ParticipantInput) {ns : List ℕ}
    → manual_shares inputs ≡ ok ns
    → (length ns ≡ length inputs) × All IsInt64 (map pos ns)
unfolding manual_shares
manual_shares_ok [] {ns} h = let same : ns ≡ [] = cc in rw same (refl, tt)
manual_shares_ok (i ∷ inputs) {ns} h =
    let (n, e, h1) = bind_ok (manual_share i.share_amount) _ h in
    let (ms, e', h2) = bind_ok (manual_shares inputs) _ h1 in
    let same : n ∷ ms ≡ ns = cc in
    let (many, fits) = manual_shares_ok inputs e' in
    subst (λ x. (length x ≡ length (i ∷ inputs)) × All IsInt64 (map pos x)) same
      (ap suc many, (manual_share_fits i.share_amount e, fits))

equal_participants_ok :
    (total : ℕ) (ts : List Text) {ps : List ParticipantShare}
    → equal_participants total ts ≡ ok ps
    → IsSplit total ts ps
unfolding equal_participants
equal_participants_ok total ts {ps} h =
    let (ns, made, done) =
      bind_ok (or_else (split_equal (pos total) (pos (length ts))) invalid_participant) _ h in
    let split = or_else_ok (split_equal (pos total) (pos (length ts))) invalid_participant made in
    let (n, p, same_total, same_length, many, exact, each) =
      split_equal_sound (pos total) (pos (length ts)) ns split in
    let e : total ≡ n = pos_injective total n same_total in
    let f : length ts ≡ p = pos_injective (length ts) p same_length in
    IsSplit-of total ts ns ps (omega (arith, many, f)) (omega (arith, exact, e))
      (All-map _ _ ns (λ x (positive, _, _). positive) each) (ground arith)

manual_participants_ok :
    (total : ℕ) (ts : List Text) (inputs : List ParticipantInput) {ps : List ParticipantShare}
    → length inputs ≡ length ts
    → manual_participants total ts inputs ≡ ok ps
    → IsSplit total ts ps
unfolding manual_participants
manual_participants_ok total ts inputs {ps} listed h =
    let (ns, made, checked) = bind_ok (manual_shares inputs) _ h in
    let (_, valid, done) =
      bind_ok (map_error (validate_manual_split (pos total) (map pos ns))) _ checked in
    let (many, typed) = manual_shares_ok inputs made in
    let (ms, same, some_share, each, exact) =
      validate_manual_split_sound (pos total) (map pos ns) typed
        (map_error_ok (validate_manual_split (pos total) (map pos ns)) valid) in
    let twin = map_pos_injective ns ms same in
    IsSplit-of total ts ns ps (omega (arith, many, listed))
      (ap sum twin ∙ sym (pos_injective total (sum ms) exact))
      (subst (All (λ n. 0 < n)) (sym twin) each) (ground arith)

split_shares_ok :
    (total : ℕ) (kind : Text) (ts : List Text) (inputs : List ParticipantInput)
    {ps : List ParticipantShare}
    → length inputs ≡ length ts
    → split_shares total kind ts inputs ≡ ok ps
    → IsSplit total ts ps
unfolding split_shares
split_shares_ok total kind ts inputs {ps} many h = elim (Bool-cases (text_eq kind (lit "equal"))) [
  | inl e ↦ equal_participants_ok total ts (rw e at h)
  | inr e ↦ elim (Bool-cases (text_eq kind (lit "manual"))) [
    | inr f ↦ absurd (ground arith)
    | inl f ↦ manual_participants_ok total ts inputs many (rw (e, f) at h)
  ]
]

-- Participants that are accepted are the trimmed identifiers in their order, none of them empty or
-- twice, someone other than the payer among them, and their positive shares make up the total.
pub build_participant_shares_sound :
    (total : ℕ) (paid_by kind : Text) (inputs : List ParticipantInput) {ps : List ParticipantShare}
    → build_participant_shares total paid_by kind inputs ≡ ok ps
    → (ids ps ≡ map (λ (i : ParticipantInput). trim_space i.user_id) inputs)
      × All (λ t. t ≢ []) (ids ps)
      × Distinct (ids ps)
      × (has_debtor paid_by (ids ps) ≡ true)
      × All (λ n. 0 < n) (amounts ps)
      × (sum (amounts ps) ≡ total)
unfolding build_participant_shares
build_participant_shares_sound total paid_by kind [] h = absurd (cc)
build_participant_shares_sound total paid_by kind (i ∷ inputs) {ps} h =
    let (ts, collected, h1) = bind_ok (collect_ids (i ∷ inputs) []) _ h in
    let (_, someone, h2) =
      bind_ok (fail_if (not (has_debtor paid_by ts)) no_debtor_participant) _ h1 in
    let (listed, apart, filled, _) = collect_ids_ok (i ∷ inputs) [] collected in
    let owes : has_debtor paid_by ts ≡ true = ground arith in
    let many : length (i ∷ inputs) ≡ length ts =
      sym (ap length listed ∙ length-map _ (i ∷ inputs)) in
    let (same, exact, each) = split_shares_ok total kind ts (i ∷ inputs) many h2 in
    (
      same ∙ listed,
      subst (All (λ t. t ≢ [])) (sym same) filled,
      subst Distinct (sym same) apart,
      subst (λ us. has_debtor paid_by us ≡ true) (sym same) owes,
      each,
      exact,
    )
