-- ===== src/Groups/Tests.antt =====
-- A group with an owner, on a server that never fails.
use mlakp_backend.Base.{◌≡◌, refl, some, [], ◌∷◌}
use mlakp_backend.Text.{lit, trim_space}
use mlakp_backend.Store.{World, Uuid, GroupRow, member, exec}
use mlakp_backend.Samples.{sample_user, steady, scan_first, small_db}
use mlakp_backend.Sql.Rows.{any_row}
use mlakp_backend.Sql.Keys.{distinct}
use mlakp_backend.Sql.Groups.{is_group_owner, user_exists, create_group_member, new_member}
use mlakp_backend.Groups.{Member, member_from_sqlc}
use mlakp_backend.Groups.Repository as Repository
use mlakp_backend.Groups.Service.{add_member}
use mlakp_backend.Groups.Roster.{IsRoster}
use mlakp_backend.Groups.Adding.{Added, add_member_sound}
use mlakp_backend.Groups.Members.{Request, create_group_of, serve, nothing, then_one, groups_owned}

abbrev flat : GroupRow
flat = record { id = b'G'; name = lit "Flat"; created_by = b'B'; created_at = 0; updated_at = 0 }

abbrev start : World
start = record {
  db = record small_db { users = sample_user ∷ []; groups = flat ∷ [] };
  tick = 10;
  notices = [];
}

start-IsRoster : IsRoster start.db
unfolding distinct any_row
start-IsRoster = record { pairs = refl; owned = refl }

abbrev founding : Request
founding = create_group_of (lit "Trip") (lit "U")

groups_owned_example : IsRoster (serve scan_first steady founding start).db
groups_owned_example = groups_owned scan_first start-IsRoster (then_one steady founding nothing)

abbrev una : Member
una =
    member_from_sqlc (new_member (record { group_id = b'G'; user_id = b'U'; role = member }) 12 12)

add_member_sound_example :
    (group : Uuid) × (owner_uuid : Uuid) × (user : Uuid) × (scan_first (trim_space (lit "G"))
      ≡ some group)
    × (scan_first (trim_space (lit "B")) ≡ some owner_uuid)
    × (scan_first (trim_space (lit "U")) ≡ some user)
    × Added steady scan_first start.db
        (add_member steady scan_first (lit "G") (lit "B") (lit "U") start).1.db
        group
        owner_uuid
        user
        una
unfolding add_member Repository.add_member Repository.add_known is_group_owner user_exists
    create_group_member exec any_row trim_space member_from_sqlc
add_member_sound_example =
    add_member_sound steady scan_first (lit "G") (lit "B") (lit "U") start refl
