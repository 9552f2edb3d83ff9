-- ===== src/Expenses/Shares.antt =====
-- internal/expenses/service.go: `buildParticipantShares`.
pub mod Laws
use mlakp_backend.Base.{
  ℕ, zero, suc, Bool, true, false, not, ◌||◌, Option, none, some, List, [], ◌∷◌, if◌then◌else◌,
  Result, ok, err, ◌>>=◌, ◌>>◌, fail_if, or_else, pos, ℤ, map, length,
}
use mlakp_backend.Text.{Text, lit, trim_space, is_empty, text_eq}
use mlakp_backend.Money.{
  MoneyError, invalid_split, parse_minor, validate_positive, split_equal, validate_manual_split,
}
use mlakp_backend.Money
use mlakp_backend.Expenses.{
  ExpenseError, invalid_participant, duplicate_participant, no_debtor_participant,
  invalid_manual_share, split_mismatch, invalid_split_type, ParticipantInput, ParticipantShare,
}

-- The key is in the map `seen`.
unfoldable pub has_seen : Text → List Text → Bool
has_seen user_id [] = false
has_seen user_id (t ∷ seen) = text_eq user_id t || has_seen user_id seen

-- The first loop: the trimmed identifiers, none empty and none twice.
unfoldable pub collect_ids : List ParticipantInput → List Text → Result ExpenseError (List Text)
collect_ids [] seen = ok []
collect_ids (input ∷ inputs) seen =
    let user_id = trim_space input.user_id in
    let rest = collect_ids inputs (user_id ∷ seen) in
    fail_if (is_empty user_id) invalid_participant
    >> fail_if (has_seen user_id seen) duplicate_participant
    >> rest
    >>= λ user_ids. ok (user_id ∷ user_ids)

-- `hasDebtor`: someone other than the payer.
unfoldable pub has_debtor : Text → List Text → Bool
has_debtor paid_by [] = false
has_debtor paid_by (user_id ∷ user_ids) =
    not (text_eq user_id paid_by) || has_debtor paid_by user_ids

-- The participants with the shares of an equal split, which are as many.
unfoldable pub with_shares : List Text → List ℕ → List ParticipantShare
with_shares [] shares = []
with_shares (user_id ∷ user_ids) [] = []
with_shares (user_id ∷ user_ids) (n ∷ shares) =
    record { user_id = user_id; share_minor = n } ∷ with_shares user_ids shares

-- The share of one participant in a manual split.
unfoldable pub manual_share : Option Text → Result ExpenseError ℕ
manual_share none = err invalid_manual_share
manual_share (some text) = do
  share_minor ← or_else (parse_minor text) invalid_manual_share
  or_else (validate_positive (pos share_minor)) invalid_manual_share
  ok share_minor

-- The second loop, over the inputs.
unfoldable pub manual_shares : List ParticipantInput → Result ExpenseError (List ℕ)
manual_shares [] = ok []
manual_shares (input ∷ inputs) = do
  share_minor ← manual_share input.share_amount
  shares ← manual_shares inputs
  ok (share_minor ∷ shares)

-- `errors.Is(err, money.ErrSplitMismatch)`
abbrev pub manual_error : MoneyError → ExpenseError
manual_error MoneyError.invalid_amount = invalid_manual_share
manual_error MoneyError.amount_not_positive = invalid_manual_share
manual_error MoneyError.invalid_split = invalid_manual_share
manual_error MoneyError.split_mismatch = split_mismatch

abbrev pub map_error : {A : Type 0} → Result MoneyError A → Result ExpenseError A
map_error (ok a) = ok a
map_error (err e) = err (manual_error e)

unfoldable pub equal_participants : ℕ → List Text → Result ExpenseError (List ParticipantShare)
equal_participants total_minor user_ids = do
  shares ← or_else (split_equal (pos total_minor) (pos (length user_ids))) invalid_participant
  ok (with_shares user_ids shares)

unfoldable pub manual_participants :
    ℕ → List Text → List ParticipantInput → Result ExpenseError (List ParticipantShare)
manual_participants total_minor user_ids inputs = do
  shares ← manual_shares inputs
  map_error (validate_manual_split (pos total_minor) (map pos shares))
  ok (with_shares user_ids shares)

-- `switch splitType`
unfoldable pub split_shares :
    ℕ → Text → List Text → List ParticipantInput → Result ExpenseError (List ParticipantShare)
split_shares total_minor split_type user_ids inputs =
    if text_eq split_type (lit "equal")
    then equal_participants total_minor user_ids
    else if text_eq split_type (lit "manual")
    then manual_participants total_minor user_ids inputs
    else err invalid_split_type

-- `buildParticipantShares`
unfoldable pub build_participant_shares :
    ℕ → Text → Text → List ParticipantInput → Result ExpenseError (List ParticipantShare)
build_participant_shares total_minor paid_by split_type [] = err invalid_participant
build_participant_shares total_minor paid_by split_type (input ∷ inputs) = do
  user_ids ← collect_ids (input ∷ inputs) []
  fail_if (not (has_debtor paid_by user_ids)) no_debtor_participant
  split_shares total_minor split_type user_ids (input ∷ inputs)
