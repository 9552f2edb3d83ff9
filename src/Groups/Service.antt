-- ===== src/Groups/Service.antt =====
-- internal/groups/service.go.
use mlakp_backend.Base.{◌||◌, Option, Result, ltb, fail_if}
use mlakp_backend.Text.{Text, trim_space, is_empty, byte_length}
use mlakp_backend.Store.{Server, Action, Uuid, lift, throw_if, ◌>>◌}
use mlakp_backend.Groups.{
  GroupError, invalid_name, invalid_user_id, invalid_group_id, Group, Member,
}
use mlakp_backend.Groups.Repository as Repository

-- `validateName`
unfoldable pub validate_name : Text → Result GroupError (Unit {0})
validate_name name = fail_if (ltb (byte_length name) 1 || ltb 120 (byte_length name)) invalid_name

module _ (s : Server) (scan : Text → Option Uuid) where
  -- `Create`
  unfoldable pub create : Text → Text → Action GroupError Group
  create name created_by = do
    lift (validate_name (trim_space name))
    throw_if (is_empty (trim_space created_by)) invalid_user_id
    Repository.create s scan (trim_space name) (trim_space created_by)

  -- `AddMember`
  unfoldable pub add_member : Text → Text → Text → Action GroupError Member
  add_member group_id owner_id member_user_id = do
    throw_if (is_empty (trim_space group_id)) invalid_group_id
    throw_if (is_empty (trim_space owner_id) || is_empty (trim_space member_user_id))
        invalid_user_id
    Repository.add_member s scan (trim_space group_id) (trim_space owner_id)
        (trim_space member_user_id)
