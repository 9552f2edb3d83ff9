-- ===== src/Groups.antt =====
-- internal/groups: groups and their members. The data of group.go, the methods that change them, of
-- the repository and of the service over it.
pub mod Repository
pub mod Service
pub mod Roster
pub mod Members
pub mod Adding
mod Tests
use mlakp_backend.Base.{ℕ}
use mlakp_backend.Text.{Text}
use mlakp_backend.Store.{Time, GroupRow, MemberRow, Role}
use mlakp_backend.Uuid.{format_uuid}

-- The error values of the package; `other` is any error passed on from the driver.
pub data GroupError : Type 0 where
  invalid_name invalid_user_id invalid_group_id not_found forbidden member_not_found member_conflict
        other :
      GroupError

-- `Group`
pub record Group : Type 0 where
  pub id : Text
  pub name : Text
  pub created_by : Text
  pub created_at : Time
  pub updated_at : Time

-- `Member`, whose field for the user's details is not set by the methods modelled.
pub record Member : Type 0 where
  pub id : Text
  pub group_id : Text
  pub user_id : Text
  pub role : Role
  pub joined_at : Time

-- `groupFromSQLC`
unfoldable pub group_from_sqlc : GroupRow → Group
group_from_sqlc g = record {
  id = format_uuid g.id;
  name = g.name;
  created_by = format_uuid g.created_by;
  created_at = g.created_at;
  updated_at = g.updated_at;
}

-- `memberFromSQLC`
unfoldable pub member_from_sqlc : MemberRow → Member
member_from_sqlc m = record {
  id = format_uuid m.id;
  group_id = format_uuid m.group_id;
  user_id = format_uuid m.user_id;
  role = m.role;
  joined_at = m.joined_at;
}
