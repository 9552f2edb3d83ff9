-- ===== src/Groups/Repository.antt =====
-- internal/groups/repository.go: the methods that create groups and members.
use mlakp_backend.Base.{not, Option, none, some, Result, ok, err}
use mlakp_backend.Text.{Text}
use mlakp_backend.Store.{
  Server, Action, Uuid, SqlError, no_rows, failed, duplicate, owner, member, exec, transaction,
  pure, lift, throw_if, on_error, ◌>>=◌, ◌>>◌,
}
use mlakp_backend.Sql.Groups.{create_group, create_group_member, is_group_owner, user_exists}
use mlakp_backend.Groups.{
  GroupError, invalid_user_id, invalid_group_id, forbidden, member_not_found, member_conflict,
  other, Group, Member, group_from_sqlc, member_from_sqlc,
}

abbrev pub any_error : SqlError → GroupError
any_error e = other

-- `if isUniqueViolation(err) { return ErrMemberConflict }; return err`
abbrev pub conflict_or_other : SqlError → GroupError
conflict_or_other no_rows = other
conflict_or_other failed = other
conflict_or_other (duplicate name) = member_conflict

module _ (s : Server) (scan : Text → Option Uuid) where
  -- `parseUUID`, with the error that the method returns instead.
  abbrev pub parse_uuid : Text → GroupError → Result GroupError Uuid
  parse_uuid value failure = elim (scan value) [ none ↦ err failure | some u ↦ ok u ]

  -- The transaction of `Create`.
  unfoldable pub create_body : Text → Uuid → Action GroupError Group
  create_body name created_by = do
    group ←
        on_error any_error (exec s (create_group (record { name = name; created_by = created_by })))
    row ← on_error any_error (
        exec s (
          create_group_member (record { group_id = group.id; user_id = created_by; role = owner })))
    pure (group_from_sqlc group)

  -- `Create`
  unfoldable pub create : Text → Text → Action GroupError Group
  create name created_by = lift (parse_uuid created_by invalid_user_id) >>= λ user.
      transaction s other (create_body name user)

  -- What `AddMember` does with the ids.
  unfoldable pub add_known : Uuid → Uuid → Uuid → Action GroupError Member
  add_known group_id owner_id user_id = do
    is_owner ← on_error any_error (exec s (is_group_owner group_id owner_id))
    throw_if (not is_owner) forbidden
    exists ← on_error any_error (exec s (user_exists user_id))
    throw_if (not exists) member_not_found
    row ← on_error conflict_or_other (
        exec s
          (create_group_member (record { group_id = group_id; user_id = user_id; role = member })))
    pure (member_from_sqlc row)

  -- `AddMember`
  unfoldable pub add_member : Text → Text → Text → Action GroupError Member
  add_member group_id owner_id member_user_id = do
    group ← lift (parse_uuid group_id invalid_group_id)
    owner_uuid ← lift (parse_uuid owner_id invalid_user_id)
    user ← lift (parse_uuid member_user_id invalid_user_id)
    add_known group owner_uuid user
