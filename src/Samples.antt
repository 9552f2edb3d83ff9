-- ===== src/Samples.antt =====
-- A small ledger, for the runs in the modules Tests: a server that never fails, an owner B and a
-- member A of a group, an expense with three debts of A to B, and a payment that awaits
-- confirmation; a user with an account, and a source of random bytes that always gives the same. An
-- identifier scans to the code of its first character.
use mlakp_backend.Base.{refl, ℕ, false, Option, none, some, List, [], ◌∷◌, arith}
use mlakp_backend.Text.{Text, lit}
use mlakp_backend.Store.{
  Host, UserRow, Server, World, Db, Uuid, Time, DebtRow, PaymentRow, ExpenseRow, MemberRow,
  DebtStatus, pending, accepted, pending_confirmation, owner, member,
}
use mlakp_backend.Sql.Rows.{any_row}
use mlakp_backend.Sql.Payments.{sum_amounts}
use mlakp_backend.Ledger.{IsLedger}

abbrev pub steady : Server
steady = record { fails = λ _. false; commits_anyway = λ _. false; new_id = λ n. n; now = λ n. n }

abbrev pub sample_host : Host
sample_host = record { clock = λ n. n; random = λ n. some 7 }

abbrev pub scan_first : Text → Option Uuid
scan_first [] = none
scan_first (c ∷ t) = some c

abbrev pub same_order : List Uuid → List Uuid
same_order us = us

abbrev pub same_text : Text → Text
same_text t = t

abbrev pub no_uri : Text → Option (Text × Text)
no_uri t = none

abbrev pub no_date : Text → Option Time
no_date t = none

abbrev pub debt_row : Uuid → ℕ → DebtStatus → DebtRow
debt_row id amount status = record {
  id = id;
  expense_id = b'E';
  debtor_id = b'A';
  creditor_id = b'B';
  original_amount_minor = amount;
  remaining_amount_minor = amount;
  status = status;
  accepted_at = none;
  rejected_at = none;
  settled_at = none;
  created_at = 0;
  updated_at = 0;
}

abbrev pub waiting_payment : PaymentRow
waiting_payment = record {
  id = b'P';
  debt_id = b'D';
  paid_by = b'A';
  received_by = b'B';
  amount_minor = 400;
  status = pending_confirmation;
  note = none;
  confirmed_at = none;
  rejected_at = none;
  created_at = 0;
  updated_at = 0;
}

abbrev pub shared_expense : ExpenseRow
shared_expense = record {
  id = b'E';
  group_id = b'G';
  title = lit "Dinner";
  description = none;
  total_amount_minor = 3600;
  currency = lit "THB";
  paid_by = b'B';
  split_type = lit "equal";
  receipt_url = none;
  expense_date = none;
  created_by = b'B';
  created_at = 0;
  updated_at = 0;
}

abbrev pub member_row : Uuid → Uuid → MemberRow
member_row id user_id = record {
  id = id;
  group_id = b'G';
  user_id = user_id;
  role = member;
  joined_at = 0;
}

abbrev pub sample_user : UserRow
sample_user = record {
  id = b'U';
  name = lit "Una";
  username = lit "una";
  email = lit "u@x";
  password_hash = lit "pw";
  email_verified_at = none;
  verification_deadline = none;
  created_at = 0;
  updated_at = 0;
}

abbrev pub small_db : Db
small_db = record {
  users = [];
  sessions = [];
  groups = [];
  verifications = [];
  members = member_row 1 b'A' ∷ record (member_row 2 b'B') { role = owner } ∷ [];
  expenses = shared_expense ∷ [];
  participants = [];
  debts = debt_row b'D' 1000 accepted ∷ debt_row b'F' 500 pending ∷ debt_row b'H' 300 accepted ∷ [];
  payments = waiting_payment ∷ [];
}

abbrev pub small_world : World
small_world = record { db = small_db; tick = 200; notices = [] }

pub small_db-IsLedger : IsLedger small_db
unfolding sum_amounts any_row
small_db-IsLedger = record {
  balanced = (
    record {
      positive = omega arith;
      parties = λ e. ground arith;
      conserved = refl;
      reserved = omega arith;
      quiet = λ e. cc;
      fits = refl;
    },
    (
      record {
        positive = omega arith;
        parties = λ e. ground arith;
        conserved = refl;
        reserved = omega arith;
        quiet = λ e. refl;
        fits = refl;
      },
      (
        record {
          positive = omega arith;
          parties = λ e. ground arith;
          conserved = refl;
          reserved = omega arith;
          quiet = λ e. refl;
          fits = refl;
        },
        tt,
      ),
    ),
  );
  backed = ((omega arith, refl), tt);
  debt_keys = (refl, (refl, (refl, tt)));
  payment_keys = (refl, tt);
}
