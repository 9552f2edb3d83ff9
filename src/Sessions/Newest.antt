-- ===== src/Sessions/Newest.antt =====
-- The session that was opened last, against a rotation with its token.
use mlakp_backend.Base.{
  ◌≡◌, refl, ap, ◌∙◌, Bool, true, false, Option, none, some, List, [], ◌∷◌, ok, err, arith, ltb,
}
use mlakp_backend.Text.{Text}
use mlakp_backend.Text.Laws.{text_eq_refl}
use mlakp_backend.Store.{Db, Uuid, Time, SessionRow, no_rows}
use mlakp_backend.Sql.Rows.{find_row, update_rows, any_row}
use mlakp_backend.Sql.Keys.{distinct, any_row_weaken}
use mlakp_backend.Sql.Sessions.{
  checked_sessions, rotate_refresh_token, has_hash, same_hash, may_rotate, rotate_row,
}

-- No row that fits leaves an update without effect.
update_rows-idle :
    (p : SessionRow → Bool) (f : SessionRow → SessionRow) (rows : List SessionRow)
    → any_row p rows ≡ false
    → update_rows p f rows ≡ rows
unfolding any_row update_rows
update_rows-idle p f [] h = refl
update_rows-idle p f (r ∷ rows) h =
    let rest = update_rows-idle p f rows (ground arith) in
    let head : p r ≡ false = ground arith in rw (head, rest) refl

-- The newest session, whose hash no other one has.
pub record IsNewest (row : SessionRow) (others : List SessionRow) (db : Db) : Type 0 where
  pub table : db.sessions ≡ row ∷ others
  pub unrevoked : row.revoked_at ≡ none
  pub alone : any_row (has_hash row.refresh_token_hash) others ≡ false
  pub apart : distinct same_hash others ≡ true

pub any_row-tail :
    (q : SessionRow → Bool) (r : SessionRow) (rows : List SessionRow)
    → any_row q (r ∷ rows) ≡ false
    → any_row q rows ≡ false
unfolding any_row
any_row-tail q r rows h = ground arith

newest_found :
    (row : SessionRow) (others : List SessionRow) (db : Db) (now : Time)
    → IsNewest row others db
    → ltb now row.expires_at ≡ true
    → find_row (may_rotate row.refresh_token_hash now) db.sessions ≡ some row
unfolding find_row
newest_found row others db now v in_time =
    let active = v.unrevoked in
    rw (v.table, text_eq_refl row.refresh_token_hash, active, in_time) refl

newest_updated :
    (row : SessionRow) (others : List SessionRow) (db : Db) (new : Text) (now : Time)
    → IsNewest row others db
    → ltb now row.expires_at ≡ true
    → update_rows (may_rotate row.refresh_token_hash now) (rotate_row new now) db.sessions
      ≡ rotate_row new now row ∷ others
unfolding update_rows
newest_updated row others db new now v in_time =
    let old = row.refresh_token_hash in
    let idle =
      update_rows-idle (may_rotate old now) (rotate_row new now) others
        (any_row_weaken (may_rotate old now) (has_hash old) others v.alone (λ r e. ground arith)) in
    rw (v.table, text_eq_refl old, v.unrevoked, in_time, idle) refl

pub newest_rotates :
    (row : SessionRow) (others : List SessionRow) (db : Db) (new : Text) (id : Uuid) (now : Time)
    → IsNewest row others db
    → any_row (has_hash new) others ≡ false
    → ltb now row.expires_at ≡ true
    → rotate_refresh_token row.refresh_token_hash new id now db
      ≡ ok (rotate_row new now row, record db { sessions = rotate_row new now row ∷ others })
unfolding rotate_refresh_token distinct
newest_rotates row others db new id now v fresh in_time =
    let old = row.refresh_token_hash in
    let rows = update_rows (may_rotate old now) (rotate_row new now) db.sessions in
    let keys : distinct same_hash (rotate_row new now row ∷ others) ≡ true =
      rw (fresh, v.apart) refl in
    ap
      (λ (o : Option SessionRow). elim o [
        | none ↦ err no_rows
        | some r ↦ checked_sessions db (rotate_row new now r) rows
      ])
      (newest_found row others db now v in_time)
    ∙ ap (checked_sessions db (rotate_row new now row))
        (newest_updated row others db new now v in_time)
    ∙ rw keys refl
