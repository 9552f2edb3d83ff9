-- ===== src/Groups/Roster.antt =====
-- The members of the groups: nobody twice in a group, and an owner in each.
use mlakp_backend.Base.{
  ◌≡◌, refl, sym, ap, subst, ok_injective, Bool, true, false, not, ◌&&◌, List, ◌∷◌, ok, ◌==◌, arith,
  Bool-cases, inl, inr, leb, length, ==_self,
}
use mlakp_backend.Store.{Db, Uuid, Time, GroupRow, MemberRow, owner}
use mlakp_backend.Sql.Rows.{any_row}
use mlakp_backend.Sql.Keys.{distinct, any_row_weaken}
use mlakp_backend.Sql.Debts.{member_is, is_owner}
use mlakp_backend.Sql.Sessions.{user_has_id}
use mlakp_backend.Sql.Groups.{
  CreateGroupParams, CreateGroupMemberParams, create_group, create_group_member, new_group,
  new_member, group_has_id, member_has_id,
}

-- `UNIQUE (group_id, user_id)`
abbrev pub same_member : MemberRow → MemberRow → Bool
same_member m x = member_is m.group_id m.user_id x

abbrev pub owns_some : Uuid → MemberRow → Bool
owns_some group_id m = m.group_id == group_id && is_owner m.role

abbrev pub is_ownerless : List MemberRow → GroupRow → Bool
is_ownerless members g = not (any_row (owns_some g.id) members)

-- Nobody is a member of a group twice, and every group has an owner.
pub record IsRoster (db : Db) : Type 0 where
  pub pairs : distinct same_member db.members ≡ true
  pub owned : any_row (is_ownerless db.members) db.groups ≡ false

-- Every group but one has an owner.
pub record IsNearlyRoster (group : GroupRow) (db : Db) : Type 0 where
  pub pairs : distinct same_member db.members ≡ true
  pub owned : any_row (λ g. not (g.id == group.id) && is_ownerless db.members g) db.groups ≡ false

pub create_group-IsNearlyRoster :
    (arg : CreateGroupParams) (id : Uuid) (now : Time) (db : Db) (g : GroupRow) (db' : Db)
    → IsRoster db
    → create_group arg id now db ≡ ok (g, db')
    → IsNearlyRoster g db'
unfolding create_group any_row
create_group-IsNearlyRoster arg id now db g db' v h =
    elim (Bool-cases (leb 1 (length arg.name) && leb (length arg.name) 120)) [
      | inr a ↦ let no = rw a at h in absurd (cc)
      | inl a ↦ elim (Bool-cases (any_row (group_has_id id) db.groups)) [
        | inl b ↦ let no = rw (a, b) at h in absurd (cc)
        | inr b ↦ elim (Bool-cases (any_row (user_has_id arg.created_by) db.users)) [
          | inr c ↦ let no = rw (a, b, c) at h in absurd (cc)
          | inl c ↦
              let done = ok_injective (rw (a, b, c) at h) in
              let rest =
                any_row_weaken (λ x. not (x.id == id) && is_ownerless db.members x)
                  (is_ownerless db.members) db.groups v.owned (λ x e. ground arith) in
              let made : IsNearlyRoster (new_group arg id now)
                  (record db { groups = new_group arg id now ∷ db.groups }) =
                record { pairs = v.pairs; owned = rw (==_self id, rest) refl } in
              subst (λ p. IsNearlyRoster p.0 p.1) done made
        ]
      ]
    ]

-- What an insertion of a member that returns has checked, and what it returns.
pub record Joined (arg : CreateGroupMemberParams) (id : Uuid) (now : Time) (db : Db) (m : MemberRow)
    (db' : Db) : Type 0 where
  pub row : m ≡ new_member arg id now
  pub tables : db' ≡ record db { members = new_member arg id now ∷ db.members }
  pub new_pair : any_row (member_is arg.group_id arg.user_id) db.members ≡ false
  pub user_known : any_row (user_has_id arg.user_id) db.users ≡ true

pub create_group_member_joins :
    (arg : CreateGroupMemberParams) (id : Uuid) (now : Time) (db : Db) (m : MemberRow) (db' : Db)
    → create_group_member arg id now db ≡ ok (m, db')
    → Joined arg id now db m db'
unfolding create_group_member
create_group_member_joins arg id now db m db' h =
    elim (Bool-cases (any_row (member_has_id id) db.members)) [
      | inl a ↦ let no = rw a at h in absurd (cc)
      | inr a ↦ elim (Bool-cases (any_row (member_is arg.group_id arg.user_id) db.members)) [
        | inl b ↦ let no = rw (a, b) at h in absurd (cc)
        | inr b ↦
            elim (Bool-cases (
              any_row (group_has_id arg.group_id) db.groups
              && any_row (user_has_id arg.user_id) db.users)) [
                | inr c ↦ let no = rw (a, b, c) at h in absurd (cc)
                | inl c ↦
                    let done = ok_injective (rw (a, b, c) at h) in
                    record {
                      row = sym (ap (λ x. x.0) done);
                      tables = sym (ap (λ x. x.1) done);
                      new_pair = b;
                      user_known = ground arith;
                    }
              ]
      ]
    ]

joined-pairs :
    (arg : CreateGroupMemberParams) (id : Uuid) (now : Time) (db : Db)
    → distinct same_member db.members ≡ true
    → any_row (member_is arg.group_id arg.user_id) db.members ≡ false
    → distinct same_member (new_member arg id now ∷ db.members) ≡ true
unfolding distinct
joined-pairs arg id now db pairs fresh = rw (fresh, pairs) refl

-- An owner of the group without one makes the roster whole.
pub own-IsRoster :
    (group : GroupRow) (user_id id : Uuid) (now : Time) (db : Db) (m : MemberRow) (db' : Db)
    → IsNearlyRoster group db
    → create_group_member
        (record { group_id = group.id; user_id = user_id; role = owner })
        id
        now
        db
      ≡ ok (m, db')
    → IsRoster db'
unfolding any_row
own-IsRoster group user_id id now db m db' v h =
    let arg : CreateGroupMemberParams = record {
      group_id = group.id;
      user_id = user_id;
      role = owner;
    } in
    let put = create_group_member_joins arg id now db m db' h in
    let made : IsRoster (record db { members = new_member arg id now ∷ db.members }) = record {
      pairs = joined-pairs arg id now db v.pairs put.new_pair;
      owned =
          any_row_weaken (is_ownerless (new_member arg id now ∷ db.members))
            (λ g. not (g.id == group.id) && is_ownerless db.members g) db.groups v.owned
            (λ g e. ground arith);
    } in
    subst IsRoster (sym put.tables) made

pub join-IsRoster :
    (arg : CreateGroupMemberParams) (id : Uuid) (now : Time) (db : Db) (m : MemberRow) (db' : Db)
    → IsRoster db
    → create_group_member arg id now db ≡ ok (m, db')
    → IsRoster db'
unfolding any_row
join-IsRoster arg id now db m db' v h =
    let put = create_group_member_joins arg id now db m db' h in
    let made : IsRoster (record db { members = new_member arg id now ∷ db.members }) = record {
      pairs = joined-pairs arg id now db v.pairs put.new_pair;
      owned =
          any_row_weaken (is_ownerless (new_member arg id now ∷ db.members))
            (is_ownerless db.members) db.groups v.owned (λ g e. ground arith);
    } in
    subst IsRoster (sym put.tables) made
