-- ===== src/Groups/Members.antt =====
-- The requests to the service of groups, and the members over sequences of them.
use mlakp_backend.Base.{ap, subst, ok_injective, Bool, not, ◌||◌, Option, Result}
use mlakp_backend.Text.{Text, trim_space, is_empty}
use mlakp_backend.Store.{Server, World, Uuid, owner, member, exec, on_error, lift, throw_if}
use mlakp_backend.Store.Spec.{Ensures, by_pure, by_bind, by_on_error, by_exec}
use mlakp_backend.Store.Invariants.{transaction_invariant}
use mlakp_backend.Store.Leads.{Leads, pure-Leads, exec-Leads, then-Leads, on_error-Leads}
use mlakp_backend.Sql.Groups.{
  CreateGroupParams, CreateGroupMemberParams, create_group, create_group_member, is_group_owner,
  user_exists,
}
use mlakp_backend.Groups.{
  GroupError, invalid_user_id, invalid_group_id, forbidden, member_not_found, other,
  group_from_sqlc, member_from_sqlc,
}
use mlakp_backend.Groups.Repository as Repository
use mlakp_backend.Groups.Repository.{any_error, conflict_or_other, parse_uuid}
use mlakp_backend.Groups.Service.{create, add_member, validate_name}
use mlakp_backend.Groups.Roster.{IsRoster, create_group-IsNearlyRoster, own-IsRoster, join-IsRoster}

pub data Request : Type 0 where
  create_group_of : Text → Text → Request
  add_member_to : Text → Text → Text → Request

module _ (s : Server) (scan : Text → Option Uuid) where
  body-Ensures :
      (name : Text) (created_by : Uuid)
      → Ensures IsRoster
          (Repository.create_body s scan name created_by)
          (λ _ db. IsRoster db)
          (λ _. Unit {0})
  unfolding Repository.create_body
  body-Ensures name created_by =
      let arg : CreateGroupParams = record { name = name; created_by = created_by } in
      by_bind {m = on_error any_error (exec s (create_group arg))}
        (by_on_error any_error (
          by_exec s (create_group arg) tt
            (λ id now db g db' v h. create_group-IsNearlyRoster arg id now db g db' v h)
            (λ _ _ _ _ _ _. tt)))
        (λ g.
          let first : CreateGroupMemberParams = record {
            group_id = g.id;
            user_id = created_by;
            role = owner;
          } in
          by_bind {m = on_error any_error (exec s (create_group_member first))}
            (by_on_error any_error (
              by_exec s {Q = λ _ db. IsRoster db} (create_group_member first) tt
                (λ id now db m db' v h. own-IsRoster g created_by id now db m db' v h)
                (λ _ _ _ _ _ _. tt)))
            (λ row. by_pure (group_from_sqlc g) (λ db v. v)))

  guarded : (test : Bool) (e : GroupError) → Leads IsRoster IsRoster (throw_if test e)
  guarded test e = record { at = λ w p. p }

  lifted : {A : Type 0} (r : Result GroupError A) → Leads IsRoster IsRoster (lift r)
  lifted r = record { at = λ w p. p }

  create-Leads : (name created_by : Text) → Leads IsRoster IsRoster (create s scan name created_by)
  unfolding create Repository.create
  create-Leads name created_by = then-Leads (lifted (validate_name (trim_space name))) (λ _.
      then-Leads (guarded (is_empty (trim_space created_by)) invalid_user_id) (λ _.
        then-Leads (lifted (parse_uuid s scan (trim_space created_by) invalid_user_id)) (λ user.
          record {
            at =
                transaction_invariant s IsRoster (λ _. Unit {0}) other
                  (Repository.create_body s scan (trim_space name) user)
                  (body-Ensures (trim_space name) user);
          })))

  add_known-Leads :
      (group_id owner_id user_id : Uuid)
      → Leads IsRoster IsRoster (Repository.add_known s scan group_id owner_id user_id)
  unfolding Repository.add_known is_group_owner user_exists
  add_known-Leads group_id owner_id user_id =
      let arg : CreateGroupMemberParams = record {
        group_id = group_id;
        user_id = user_id;
        role = member;
      } in
      then-Leads {m = on_error any_error (exec s (is_group_owner group_id owner_id))}
        (on_error-Leads any_error (
          exec-Leads s (is_group_owner group_id owner_id) (λ db v. v)
            (λ id now db b db' v h. subst IsRoster (ap (λ x. x.1) (ok_injective h)) v)))
        (λ is_owner. then-Leads (guarded (not is_owner) forbidden) (λ _.
          then-Leads {m = on_error any_error (exec s (user_exists user_id))}
            (on_error-Leads any_error (
              exec-Leads s (user_exists user_id) (λ db v. v)
                (λ id now db b db' v h. subst IsRoster (ap (λ x. x.1) (ok_injective h)) v)))
            (λ exists. then-Leads (guarded (not exists) member_not_found) (λ _.
              then-Leads {m = on_error conflict_or_other (exec s (create_group_member arg))}
                (on_error-Leads conflict_or_other (
                  exec-Leads s (create_group_member arg) (λ db v. v)
                    (λ id now db m db' v h. join-IsRoster arg id now db m db' v h)))
                (λ row. pure-Leads (λ db v. v) (member_from_sqlc row))))))

  add_member-Leads :
      (group_id owner_id user_id : Text)
      → Leads IsRoster IsRoster (add_member s scan group_id owner_id user_id)
  unfolding add_member Repository.add_member
  add_member-Leads group_id owner_id user_id =
      then-Leads (guarded (is_empty (trim_space group_id)) invalid_group_id) (λ _.
        then-Leads
          (guarded (is_empty (trim_space owner_id) || is_empty (trim_space user_id))
            invalid_user_id)
          (λ _.
            then-Leads (lifted (parse_uuid s scan (trim_space group_id) invalid_group_id)) (λ group.
              then-Leads (lifted (parse_uuid s scan (trim_space owner_id) invalid_user_id))
                (λ owner_uuid.
                  then-Leads (lifted (parse_uuid s scan (trim_space user_id) invalid_user_id))
                    (λ user. add_known-Leads group owner_uuid user)))))

module _ (scan : Text → Option Uuid) where
  -- The world after a request, with a server of its own.
  unfoldable pub serve : Server → Request → World → World
  serve s (create_group_of name created_by) w = (create s scan name created_by w).1
  serve s (add_member_to group_id owner_id user_id) w =
      (add_member s scan group_id owner_id user_id w).1

  -- The worlds that a sequence of requests leads to.
  pub data Reaches (start : World) : World → Type 0 where
    nothing : Reaches start start
    then_one :
        (s : Server) (r : Request) {w : World} → Reaches start w → Reaches start (serve s r w)

  serve-IsRoster :
      (s : Server) (r : Request) (w : World) → IsRoster w.db → IsRoster (serve s r w).db
  unfolding serve
  serve-IsRoster s (create_group_of name created_by) w v =
      (create-Leads s scan name created_by).at w v
  serve-IsRoster s (add_member_to group_id owner_id user_id) w v =
      (add_member-Leads s scan group_id owner_id user_id).at w v

  -- Every group has an owner and nobody is a member of a group twice: where it is so at first, every
  -- sequence of requests to create groups and add members keeps it so, whatever the server does.
  pub groups_owned : {start w : World} → IsRoster start.db → Reaches start w → IsRoster w.db
  groups_owned v nothing = v
  groups_owned v (then_one s r {w} before) = serve-IsRoster s r w (groups_owned v before)
