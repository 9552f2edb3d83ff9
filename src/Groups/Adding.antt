-- ===== src/Groups/Adding.antt =====
-- Who can add members, and what adding one changes.
use mlakp_backend.Base.{
  ◌≡◌, refl, sym, ap, subst, ◌∙◌, ok_injective, true, false, not, ◌||◌, Option, some, ◌∷◌, ok,
  arith,
}
use mlakp_backend.Text.{Text, trim_space, is_empty}
use mlakp_backend.Store.{Server, World, Db, Uuid, Time, member, exec, on_error}
use mlakp_backend.Store.Spec.{
  Ensures, by_pure, by_lift, by_throw_if, by_bind, by_on_error, by_exec, by_fact, weaken,
  strengthen,
}
use mlakp_backend.Store.Outside.{ok_post}
use mlakp_backend.Sql.Rows.{any_row}
use mlakp_backend.Sql.Debts.{member_is}
use mlakp_backend.Sql.Sessions.{user_has_id}
use mlakp_backend.Sql.Groups.{
  CreateGroupMemberParams, create_group_member, new_member, owns, is_group_owner, user_exists,
}
use mlakp_backend.Groups.{
  GroupError, Member, invalid_user_id, invalid_group_id, forbidden, member_not_found,
  member_from_sqlc,
}
use mlakp_backend.Groups.Repository as Repository
use mlakp_backend.Groups.Repository.{any_error, conflict_or_other, parse_uuid}
use mlakp_backend.Groups.Service.{add_member}
use mlakp_backend.Groups.Roster.{create_group_member_joins}

module _ (s : Server) (scan : Text → Option Uuid) where
  -- The owner was an owner of the group, the user existed and was no member of it; the one row that
  -- is new makes him a plain member.
  pub record Added (before after : Db) (group_id owner_id user_id : Uuid) (m : Member)
      : Type 0 where
    pub by_owner : any_row (owns group_id owner_id) before.members ≡ true
    pub user_known : any_row (user_has_id user_id) before.users ≡ true
    pub was_no_member : any_row (member_is group_id user_id) before.members ≡ false
    pub id : Uuid
    pub time : Time
    pub result :
        m
        ≡ member_from_sqlc
            (new_member (record { group_id = group_id; user_id = user_id; role = member }) id time)
    pub tables : after ≡ record before {
      members =
          new_member (record { group_id = group_id; user_id = user_id; role = member }) id time
          ∷ before.members;
    }

  add_known-Ensures :
      (before : Db) (group_id owner_id user_id : Uuid)
      → Ensures
          (λ db. db ≡ before)
          (Repository.add_known s scan group_id owner_id user_id)
          (λ m db. Added before db group_id owner_id user_id m)
          (λ _. Unit {0})
  unfolding Repository.add_known is_group_owner user_exists
  add_known-Ensures before group_id owner_id user_id =
      let arg : CreateGroupMemberParams = record {
        group_id = group_id;
        user_id = user_id;
        role = member;
      } in
      by_bind {Q = λ b db. (db ≡ before) × (any_row (owns group_id owner_id) before.members ≡ b)}
        {m = on_error any_error (exec s (is_group_owner group_id owner_id))}
        (by_on_error any_error (
          by_exec s (is_group_owner group_id owner_id) tt
            (λ id now db b db' same h.
              let done = ok_injective h in
              (
                sym (ap (λ x. x.1) done) ∙ same,
                ap (λ d. any_row (owns group_id owner_id) d.members) (sym same)
                    ∙ ap (λ x. x.0) done,
              ))
            (λ _ _ _ _ _ _. tt)))
        (λ is_owner. by_bind (by_throw_if (not is_owner) forbidden (λ _ _ _. tt)) (λ _.
          by_fact
            ((any_row (owns group_id owner_id) before.members ≡ is_owner) × (not is_owner ≡ false))
            (λ db p. (p.0.1, p.1))
            (λ (owned, passed).
              by_bind {Q = λ b db. db ≡ before}
                {m = on_error any_error (exec s (user_exists user_id))}
                (by_on_error any_error (
                  by_exec s (user_exists user_id) tt
                    (λ id now db b db' same h. sym (ap (λ x. x.1) (ok_injective h)) ∙ same.0.0)
                    (λ _ _ _ _ _ _. tt)))
                (λ exists. by_bind (by_throw_if (not exists) member_not_found (λ _ _ _. tt)) (λ _.
                  by_bind
                    {Q = λ row db. Added before db group_id owner_id user_id (member_from_sqlc row)}
                    {m = on_error conflict_or_other (exec s (create_group_member arg))}
                    (by_on_error conflict_or_other (
                      by_exec s (create_group_member arg) tt
                        (λ id now db row db' (same, _) h.
                          let put = create_group_member_joins arg id now db row db' h in
                          record {
                            by_owner = ground (arith, owned, passed);
                            user_known =
                                subst (λ d. any_row (user_has_id user_id) d.users ≡ true) same
                                  put.user_known;
                            was_no_member =
                                subst (λ d. any_row (member_is group_id user_id) d.members ≡ false)
                                  same put.new_pair;
                            id = id;
                            time = now;
                            result = ap member_from_sqlc put.row;
                            tables =
                                put.tables
                                ∙ ap
                                    (λ (d : Db).
                                      let next : Db = record d {
                                        members = new_member arg id now ∷ d.members;
                                      } in
                                      next)
                                    same;
                          })
                        (λ _ _ _ _ _ _. tt)))
                    (λ row. by_pure (member_from_sqlc row) (λ db a. a)))))))

  scanned_to :
      (value : Text) (failure : GroupError) {u : Uuid}
      → parse_uuid s scan value failure ≡ ok u
      → scan value ≡ some u
  scanned_to value failure h = ground (arith, h)

  add_member-Ensures :
      (before : Db) (group_id owner_id user_id : Text)
      → Ensures
          (λ db. db ≡ before)
          (add_member s scan group_id owner_id user_id)
          (λ m db.
            (group : Uuid) × (owner_uuid : Uuid) × (user : Uuid) × (scan (trim_space group_id)
              ≡ some group)
            × (scan (trim_space owner_id) ≡ some owner_uuid)
            × (scan (trim_space user_id) ≡ some user)
            × Added before db group owner_uuid user m)
          (λ _. Unit {0})
  unfolding add_member Repository.add_member
  add_member-Ensures before group_id owner_id user_id =
      by_bind (by_throw_if (is_empty (trim_space group_id)) invalid_group_id (λ _ _ _. tt)) (λ _.
        by_bind
          (by_throw_if (is_empty (trim_space owner_id) || is_empty (trim_space user_id))
            invalid_user_id (λ _ _ _. tt))
          (λ _.
            by_bind (by_lift (parse_uuid s scan (trim_space group_id) invalid_group_id) (λ _ _. tt))
              (λ group.
                by_bind
                  (by_lift (parse_uuid s scan (trim_space owner_id) invalid_user_id) (λ _ _. tt))
                  (λ owner_uuid.
                    by_bind
                      (by_lift (parse_uuid s scan (trim_space user_id) invalid_user_id) (λ _ _. tt))
                      (λ user.
                        by_fact
                          ((parse_uuid s scan (trim_space user_id) invalid_user_id ≡ ok user)
                            × (parse_uuid s scan (trim_space owner_id) invalid_user_id
                                ≡ ok owner_uuid)
                            × (parse_uuid s scan (trim_space group_id) invalid_group_id ≡ ok group))
                          (λ db (third, (second, (first, rest))). (third, second, first))
                          (λ (third, second, first).
                            strengthen
                              (λ m db a. (
                                group,
                                owner_uuid,
                                user,
                                scanned_to (trim_space group_id) invalid_group_id first,
                                scanned_to (trim_space owner_id) invalid_user_id second,
                                scanned_to (trim_space user_id) invalid_user_id third,
                                a,
                              ))
                              (weaken (λ db (third, (second, (first, ((same, a), b)))). same)
                                (add_known-Ensures before group owner_uuid user))))))))

  -- A member is added only by an owner of the group, who names a user that exists and is not a
  -- member yet; the one thing that changes is the new row, of a plain member. The ids are those that
  -- the trimmed texts scan to.
  pub add_member_sound :
      (group_id owner_id user_id : Text) (w : World) {m : Member}
      → (add_member s scan group_id owner_id user_id w).0 ≡ ok m
      → (group : Uuid) × (owner_uuid : Uuid) × (user : Uuid) × (scan (trim_space group_id)
          ≡ some group)
        × (scan (trim_space owner_id) ≡ some owner_uuid)
        × (scan (trim_space user_id) ≡ some user)
        × Added w.db (add_member s scan group_id owner_id user_id w).1.db group owner_uuid user m
  add_member_sound group_id owner_id user_id w h =
      ok_post (add_member-Ensures w.db group_id owner_id user_id) w refl h
