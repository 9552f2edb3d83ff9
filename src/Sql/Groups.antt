-- ===== src/Sql/Groups.antt =====
-- internal/postgres/sqlc/groups.sql.go: the statements on the tables `groups` and `group_members`
-- that change them or guard a change, with the constraints of
-- migrations/20260505000300_groups.up.sql.
use mlakp_backend.Base.{Bool, not, ◌&&◌, ◌∷◌, ok, err, leb, ◌==◌, length, if◌then◌else◌}
use mlakp_backend.Text.{Text, lit}
use mlakp_backend.Store.{Query, no_rows, failed, duplicate, Uuid, Time, GroupRow, MemberRow, Role}
use mlakp_backend.Sql.Rows.{find_row, any_row}
use mlakp_backend.Sql.Debts.{one_row, member_is, is_owner}
use mlakp_backend.Sql.Sessions.{user_has_id}

abbrev pub group_has_id : Uuid → GroupRow → Bool
group_has_id id g = g.id == id

abbrev pub member_has_id : Uuid → MemberRow → Bool
member_has_id id m = m.id == id

-- `CreateGroupParams`
pub record CreateGroupParams : Type 0 where
  pub name : Text
  pub created_by : Uuid

abbrev pub new_group : CreateGroupParams → Uuid → Time → GroupRow
new_group arg id now = record {
  id = id;
  name = arg.name;
  created_by = arg.created_by;
  created_at = now;
  updated_at = now;
}

unfoldable pub create_group : CreateGroupParams → Query GroupRow
create_group arg id now db =
    if not (leb 1 (length arg.name) && leb (length arg.name) 120)
    then err failed
    else if any_row (group_has_id id) db.groups
    then err (duplicate (lit "groups_pkey"))
    else if any_row (user_has_id arg.created_by) db.users
    then ok (new_group arg id now, record db { groups = new_group arg id now ∷ db.groups })
    else err failed

-- `CreateGroupMemberParams`
pub record CreateGroupMemberParams : Type 0 where
  pub group_id : Uuid
  pub user_id : Uuid
  pub role : Role

abbrev pub new_member : CreateGroupMemberParams → Uuid → Time → MemberRow
new_member arg id now = record {
  id = id;
  group_id = arg.group_id;
  user_id = arg.user_id;
  role = arg.role;
  joined_at = now;
}

unfoldable pub create_group_member : CreateGroupMemberParams → Query MemberRow
create_group_member arg id now db =
    if any_row (member_has_id id) db.members
    then err (duplicate (lit "group_members_pkey"))
    else if any_row (member_is arg.group_id arg.user_id) db.members
    then err (duplicate (lit "group_members_group_user_unique"))
    else if any_row (group_has_id arg.group_id) db.groups
        && any_row (user_has_id arg.user_id) db.users
    then ok (new_member arg id now, record db { members = new_member arg id now ∷ db.members })
    else err failed

abbrev pub owns : Uuid → Uuid → MemberRow → Bool
owns group_id user_id m = member_is group_id user_id m && is_owner m.role

unfoldable pub is_group_owner : Uuid → Uuid → Query Bool
is_group_owner group_id user_id id now db = ok (any_row (owns group_id user_id) db.members, db)

unfoldable pub user_exists : Uuid → Query Bool
user_exists user_id id now db = ok (any_row (user_has_id user_id) db.users, db)

-- `JOIN group_members`: the group, where the user is a member of it.
unfoldable pub get_group_for_user : Uuid → Uuid → Query GroupRow
get_group_for_user group_id user_id id now db =
    if any_row (member_is group_id user_id) db.members
    then one_row (find_row (group_has_id group_id) db.groups) db
    else err no_rows
