-- ===== src/Store/Rows.antt =====
-- The rows of the tables (internal/postgres/sqlc/models.go). Amounts are `bigint` columns under
-- CHECK constraints that keep them from being negative, and statuses are texts under CHECK
-- constraints that list them (migrations/20260505000400 and 20260505000500). A UUID is its 128-bit
-- value, and a time stamp a number of microseconds, the resolution of a `timestamptz`.
use mlakp_backend.Base.{ℕ, List, Option}
use mlakp_backend.Text.{Text}

abbrev pub Uuid : Type 0
Uuid = ℕ

abbrev pub Time : Type 0
Time = ℕ

pub data DebtStatus : Type 0 where
  pending accepted rejected partially_settled settled : DebtStatus

pub data PaymentStatus : Type 0 where
  pending_confirmation confirmed rejected : PaymentStatus

pub data Role : Type 0 where
  owner member : Role

-- `sqlc.Debt`
pub record DebtRow : Type 0 where
  pub id : Uuid
  pub expense_id : Uuid
  pub debtor_id : Uuid
  pub creditor_id : Uuid
  pub original_amount_minor : ℕ
  pub remaining_amount_minor : ℕ
  pub status : DebtStatus
  pub accepted_at : Option Time
  pub rejected_at : Option Time
  pub settled_at : Option Time
  pub created_at : Time
  pub updated_at : Time

-- `sqlc.Payment`
pub record PaymentRow : Type 0 where
  pub id : Uuid
  pub debt_id : Uuid
  pub paid_by : Uuid
  pub received_by : Uuid
  pub amount_minor : ℕ
  pub status : PaymentStatus
  pub note : Option Text
  pub confirmed_at : Option Time
  pub rejected_at : Option Time
  pub created_at : Time
  pub updated_at : Time

-- `sqlc.Expense`
pub record ExpenseRow : Type 0 where
  pub id : Uuid
  pub group_id : Uuid
  pub title : Text
  pub description : Option Text
  pub total_amount_minor : ℕ
  pub currency : Text
  pub paid_by : Uuid
  pub split_type : Text
  pub receipt_url : Option Text
  pub expense_date : Option Time
  pub created_by : Uuid
  pub created_at : Time
  pub updated_at : Time

-- `sqlc.ExpenseParticipant`
pub record ParticipantRow : Type 0 where
  pub id : Uuid
  pub expense_id : Uuid
  pub user_id : Uuid
  pub share_amount_minor : ℕ
  pub created_at : Time

-- `sqlc.GroupMember`
pub record MemberRow : Type 0 where
  pub id : Uuid
  pub group_id : Uuid
  pub user_id : Uuid
  pub role : Role
  pub joined_at : Time

-- `sqlc.User`
pub record UserRow : Type 0 where
  pub id : Uuid
  pub name : Text
  pub username : Text
  pub email : Text
  pub password_hash : Text
  pub email_verified_at : Option Time
  pub verification_deadline : Option Time
  pub created_at : Time
  pub updated_at : Time

-- `sqlc.AuthSession`
pub record SessionRow : Type 0 where
  pub id : Uuid
  pub user_id : Uuid
  pub refresh_token_hash : Text
  pub created_at : Time
  pub expires_at : Time
  pub revoked_at : Option Time
  pub last_used_at : Option Time

-- `sqlc.Group`
pub record GroupRow : Type 0 where
  pub id : Uuid
  pub name : Text
  pub created_by : Uuid
  pub created_at : Time
  pub updated_at : Time

-- A row of `email_verifications`.
pub record VerificationRow : Type 0 where
  pub id : Uuid
  pub user_id : Option Uuid
  pub email : Text
  pub purpose : Text
  pub otp_hash : Text
  pub expires_at : Time
  pub verified_at : Option Time
  pub attempt_count : ℕ
  pub request_count : ℕ
  pub last_request_at : Time
  pub created_at : Time

-- The tables.
pub record Db : Type 0 where
  pub users : List UserRow
  pub sessions : List SessionRow
  pub groups : List GroupRow
  pub verifications : List VerificationRow
  pub members : List MemberRow
  pub expenses : List ExpenseRow
  pub participants : List ParticipantRow
  pub debts : List DebtRow
  pub payments : List PaymentRow
