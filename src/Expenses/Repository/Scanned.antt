-- ===== src/Expenses/Repository/Scanned.antt =====
-- The identifiers that `Create` (internal/expenses/repository.go) scans.
use mlakp_backend.Base.{
  ◌≡◌, refl, ap, subst, Option, none, some, List, [], ◌∷◌, ok, err, All, bind_ok, ok_injective,
}
use mlakp_backend.Text.{Text}
use mlakp_backend.Store.{Server, Uuid}
use mlakp_backend.Expenses.{
  ExpenseError, forbidden, invalid_participant, invalid_group_id, invalid_payer_id, CreateParams,
  ParticipantShare,
}
use mlakp_backend.Expenses.Repository.{Keys, parse_participants, parse_keys}
use mlakp_backend.Expenses.Repository.Spec.{plain}

-- What the identifiers scan to.
pub record IsScanned (scan : Text → Option Uuid) (params : CreateParams) (keys : Keys)
    : Type 0 where
  pub group_scans : scan params.group_id ≡ some keys.group_id
  pub creator_scans : scan params.created_by ≡ some keys.created_by
  pub payer_scans : scan params.paid_by ≡ some keys.paid_by
  pub users_are : plain keys.participants ≡ params.participants
  pub users_scan :
      All (λ (e : ParticipantShare × Uuid). scan e.0.user_id ≡ some e.1) keys.participants

scan_ok :
    (o : Option Uuid) (e : ExpenseError) {u : Uuid}
    → elim o [ none ↦ err e | some v ↦ ok v ] ≡ ok u
    → o ≡ some u
scan_ok none e h = absurd (cc)
scan_ok (some v) e h = cc

module _ (s : Server) (scan : Text → Option Uuid) (order : List Uuid → List Uuid) where
  parse_participants_ok :
      (ps : List ParticipantShare) {es : List (ParticipantShare × Uuid)}
      → parse_participants s scan order ps ≡ ok es
      → (plain es ≡ ps) × All (λ (e : ParticipantShare × Uuid). scan e.0.user_id ≡ some e.1) es
  unfolding parse_participants
  parse_participants_ok [] {es} h = let same : es ≡ [] = cc in rw same (refl, tt)
  parse_participants_ok (p ∷ ps) {es} h =
      let (u, e, h1) =
        bind_ok (elim (scan p.user_id) [ none ↦ err invalid_participant | some u ↦ ok u ]) _ h in
      let (rest, e', h2) = bind_ok (parse_participants s scan order ps) _ h1 in
      let same : (p, u) ∷ rest ≡ es = cc in
      let (plain_rest, scan_rest) = parse_participants_ok ps e' in
      subst
        (λ (x : List (ParticipantShare × Uuid)).
          (plain x ≡ p ∷ ps) × All (λ (e : ParticipantShare × Uuid). scan e.0.user_id ≡ some e.1) x)
        same
        (ap (λ x. p ∷ x) plain_rest, (scan_ok (scan p.user_id) invalid_participant e, scan_rest))

  pub parse_keys-IsScanned :
      (params : CreateParams) {keys : Keys}
      → parse_keys s scan order params ≡ ok keys
      → IsScanned scan params keys
  unfolding parse_keys
  parse_keys-IsScanned params {keys} h =
      let (a, ea, h1) =
        bind_ok (elim (scan params.group_id) [ none ↦ err invalid_group_id | some u ↦ ok u ]) _ h in
      let (b, eb, h2) =
        bind_ok (elim (scan params.created_by) [ none ↦ err forbidden | some u ↦ ok u ]) _ h1 in
      let (c, ec, h3) =
        bind_ok (elim (scan params.paid_by) [ none ↦ err invalid_payer_id | some u ↦ ok u ]) _ h2 in
      let (es, e, h4) = bind_ok (parse_participants s scan order params.participants) _ h3 in
      let (are, scans) = parse_participants_ok params.participants e in
      subst (IsScanned scan params) (ok_injective h4) (record {
        group_scans = scan_ok (scan params.group_id) invalid_group_id ea;
        creator_scans = scan_ok (scan params.created_by) forbidden eb;
        payer_scans = scan_ok (scan params.paid_by) invalid_payer_id ec;
        users_are = are;
        users_scan = scans;
      })
