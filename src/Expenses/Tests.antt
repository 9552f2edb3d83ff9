-- ===== src/Expenses/Tests.antt =====
-- Runs of the expenses component on the sample ledger.
use mlakp_backend.Base.{
  ◌≡◌, ◌≢◌, refl, ◌<◌, true, none, List, [], ◌∷◌, Result, ok, err, map, All, sum,
}
use mlakp_backend.Text.{lit, trim_space, text_eq, byte_length, utf8_size, cut, contains_char}
use mlakp_backend.Decimal.{parse_int}
use mlakp_backend.Money.{
  is_digits, pad_zeros, amount_parts, minor_of_parts, parse_minor, validate_positive, split_equal,
}
use mlakp_backend.Store.{exec, transaction}
use mlakp_backend.Sql.Rows.{any_row}
use mlakp_backend.Sql.Debts.{is_group_member}
use mlakp_backend.Sql.Expenses.{create_expense, create_expense_participant, create_debt}
use mlakp_backend.Ledger.{IsLedger}
use mlakp_backend.Samples.{
  steady, scan_first, same_order, same_text, no_uri, no_date, small_world, small_db-IsLedger,
}
use mlakp_backend.Expenses.{
  ParticipantInput, ParticipantShare, CreateInput, CreateParams, CreatedExpense, ExpenseError,
}
use mlakp_backend.Expenses.Shares.{
  has_seen, collect_ids, has_debtor, with_shares, split_shares, equal_participants,
  build_participant_shares,
}
use mlakp_backend.Expenses.Shares.Laws.{ids, amounts, Distinct, build_participant_shares_sound}
use mlakp_backend.Expenses.Validation.{
  normalize_receipt_url, normalize_expense_date, validate_create_input,
}
use mlakp_backend.Expenses.Validation.Laws.{IsValid, validate_create_input_sound}
use mlakp_backend.Expenses.Repository.{
  parse_participants, parse_keys, require_group_member, require_all, owe, share_out, create_body,
  create,
}
use mlakp_backend.Expenses.Repository.Keeps.{create-keeps}
use mlakp_backend.Expenses.Repository.Spec.{IsCreated}
use mlakp_backend.Expenses.Repository.Create.{create_rows}

abbrev participants : List ParticipantInput
participants =
    record { user_id = lit " A"; share_amount = none }
    ∷ record { user_id = lit "B"; share_amount = none }
    ∷ []

abbrev shares : List ParticipantShare
shares =
    record { user_id = lit "A"; share_minor = 500 }
    ∷ record { user_id = lit "B"; share_minor = 501 }
    ∷ []

shares_run : build_participant_shares 1001 (lit "B") (lit "equal") participants ≡ ok shares
unfolding build_participant_shares collect_ids has_seen has_debtor split_shares equal_participants
    with_shares trim_space text_eq split_equal
shares_run = refl

build_participant_shares_sound_example :
    (ids shares ≡ map (λ (i : ParticipantInput). trim_space i.user_id) participants)
    × All (λ t. t ≢ []) (ids shares)
    × Distinct (ids shares)
    × (has_debtor (lit "B") (ids shares) ≡ true)
    × All (λ n. 0 < n) (amounts shares)
    × (sum (amounts shares) ≡ 1001)
build_participant_shares_sound_example =
    build_participant_shares_sound 1001 (lit "B") (lit "equal") participants shares_run

abbrev lunch : CreateInput
lunch = record {
  group_id = lit "G";
  title = lit "Lunch";
  description = none;
  total_amount = lit "10.01";
  currency = lit "THB";
  paid_by = lit "B";
  split_type = lit "equal";
  receipt_url = none;
  expense_date = none;
  participants = participants;
  created_by = lit "A";
}

abbrev lunch_params : CreateParams
lunch_params = record {
  group_id = lit "G";
  title = lit "Lunch";
  description = none;
  total_minor = 1001;
  currency = lit "THB";
  paid_by = lit "B";
  split_type = lit "equal";
  receipt_url = none;
  expense_date = none;
  participants = shares;
  created_by = lit "A";
}

lunch_run : validate_create_input same_text no_uri no_date lunch ≡ ok lunch_params
unfolding validate_create_input normalize_receipt_url normalize_expense_date
    build_participant_shares collect_ids has_seen has_debtor split_shares equal_participants
    with_shares trim_space text_eq split_equal parse_minor amount_parts minor_of_parts is_digits
    pad_zeros cut contains_char parse_int byte_length utf8_size validate_positive
lunch_run = refl

validate_create_input_sound_example : IsValid lunch_params
validate_create_input_sound_example =
    validate_create_input_sound same_text no_uri no_date lunch lunch_run

create-keeps_example : IsLedger (create steady scan_first same_order lunch_params small_world).1.db
create-keeps_example =
    create-keeps steady scan_first same_order lunch_params small_world small_db-IsLedger

abbrev created_or : CreatedExpense → Result ExpenseError CreatedExpense → CreatedExpense
created_or c (ok created) = created
created_or c (err e) = c

abbrev nothing_created : CreatedExpense
nothing_created = record {
  expense = record {
    id = [];
    group_id = [];
    title = [];
    description = none;
    total_amount_minor = 0;
    currency = [];
    paid_by = [];
    split_type = [];
    receipt_url = none;
    expense_date = none;
    created_by = [];
    created_at = 0;
    updated_at = 0;
  };
  participants = [];
  debts = [];
}

abbrev lunch_created : CreatedExpense
lunch_created =
    created_or nothing_created (create steady scan_first same_order lunch_params small_world).0

create_run : (create steady scan_first same_order lunch_params small_world).0 ≡ ok lunch_created
unfolding create create_body parse_keys parse_participants require_group_member require_all
    is_group_member transaction exec any_row create_expense share_out create_expense_participant owe
    create_debt text_eq
create_run = refl

create_rows_example :
    IsCreated scan_first lunch_params small_world.db
      (create steady scan_first same_order lunch_params small_world).1.db
      lunch_created
create_rows_example = create_rows steady scan_first same_order lunch_params small_world create_run
