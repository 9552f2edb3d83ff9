-- ===== src/Sessions/Kept.antt =====
-- The invariants of the table of sessions against its four statements.
use mlakp_backend.Base.{
  ◌≡◌, refl, sym, ap, ok_injective, Bool, true, false, ok, Result, ◌==◌, arith, Bool-cases, inl,
  inr, ==→eq,
}
use mlakp_backend.Text.{Text, text_eq}
use mlakp_backend.Store.{Db, Uuid, Time, SessionRow, SqlError}
use mlakp_backend.Sql.Rows.{update_rows, any_row, any_row-update_rows}
use mlakp_backend.Sql.Keys.{distinct, distinct-update_rows, update_rows-none}
use mlakp_backend.Sql.Sessions.{
  revoke_auth_session, revoke_all_user_sessions, has_hash, same_hash, session_has_id, may_rotate,
  rotate_row, may_revoke, may_revoke_of, revoke_row,
}
use mlakp_backend.Sessions.Steps.{IsKept}
use mlakp_backend.Sessions.Laws.{
  same_session, HasSessionKeys, IsSpent, IsEnded, create_inserts, rotate_finds,
}

-- The sessions that a revocation leaves.
revoke_table :
    (p : SessionRow → Bool) (now : Time) (db : Db) (u : Unit {0}) (db' : Db)
    → ◌≡◌ {A = Result SqlError (Unit {0} × Db)}
        (ok (tt, record db { sessions = update_rows p (revoke_row now) db.sessions }))
        (ok (u, db'))
    → db'.sessions ≡ update_rows p (revoke_row now) db.sessions
revoke_table p now db u db' h = sym (ap (λ x. x.1.sessions) (ok_injective h))

revoked_keys :
    (p : SessionRow → Bool) (now : Time) (db : Db) (db' : Db)
    → HasSessionKeys db
    → db'.sessions ≡ update_rows p (revoke_row now) db.sessions
    → HasSessionKeys db'
revoked_keys p now db db' keys e = record {
  ids = rw e (
      distinct-update_rows same_session p (revoke_row now) db.sessions (λ r x. refl) (λ r x. refl)
        keys.ids);
  hashes = rw e (
      distinct-update_rows same_hash p (revoke_row now) db.sessions (λ r x. refl) (λ r x. refl)
        keys.hashes);
}

pub session_keys-IsKept : IsKept HasSessionKeys (λ _. Unit {0})
unfolding distinct revoke_auth_session revoke_all_user_sessions
session_keys-IsKept = record {
  created = λ arg id now db r db' _ keys h.
      let put = create_inserts arg id now db r db' h in
      record {
        ids = rw (put.table, put.new_id, keys.ids) refl;
        hashes = rw (put.table, put.new_hash, keys.hashes) refl;
      };
  rotated = λ old new id now db r db' _ keys h.
      let (x, done) = rotate_finds old new id now db r db' h in
      record {
        ids = rw done.table (
            distinct-update_rows same_session (may_rotate old now) (rotate_row new now) db.sessions
              (λ r x. refl) (λ r x. refl) keys.ids);
        hashes = done.hashes;
      };
  revoked = λ session_id id now db u db' keys h.
      revoked_keys (may_revoke session_id) now db db' keys
        (revoke_table (may_revoke session_id) now db u db' h);
  revoked_all = λ user_id id now db u db' keys h.
      revoked_keys (may_revoke_of user_id) now db db' keys
        (revoke_table (may_revoke_of user_id) now db u db' h);
}

-- A hash that is not given out again stays used up.
pub IsSpent-IsKept : (hash : Text) → IsKept (IsSpent hash) (λ t. text_eq hash t ≡ false)
unfolding any_row revoke_auth_session revoke_all_user_sessions
IsSpent-IsKept hash = record {
  created = λ arg id now db r db' other_hash spent h.
      let put = create_inserts arg id now db r db' h in
      record { absent = rw (put.table, other_hash, spent.absent) refl };
  rotated = λ old new id now db r db' other_hash spent h.
      let (x, done) = rotate_finds old new id now db r db' h in
      record {
        absent = rw done.table (
            update_rows-none (has_hash hash) (may_rotate old now) (rotate_row new now) db.sessions
              spent.absent (λ _ _. other_hash));
      };
  revoked = λ session_id id now db u db' spent h. record {
    absent = rw (revoke_table (may_revoke session_id) now db u db' h) (
        update_rows-none (has_hash hash) (may_revoke session_id) (revoke_row now) db.sessions
          spent.absent (λ _ e. e));
  };
  revoked_all = λ user_id id now db u db' spent h. record {
    absent = rw (revoke_table (may_revoke_of user_id) now db u db' h) (
        update_rows-none (has_hash hash) (may_revoke_of user_id) (revoke_row now) db.sessions
          spent.absent (λ _ e. e));
  };
}

IsEnded-update :
    (session_id : Uuid) (p : SessionRow → Bool) (f : SessionRow → SessionRow) (db db' : Db)
    → ((r : SessionRow) → session_has_id session_id (f r) ≡ session_has_id session_id r)
    → ((r : SessionRow) → may_revoke session_id r ≡ false → may_revoke session_id (f r) ≡ false)
    → IsEnded session_id db
    → db'.sessions ≡ update_rows p f db.sessions
    → IsEnded session_id db'
IsEnded-update session_id p f db db' same shut ended e = record {
  exists =
      rw (e, any_row-update_rows (session_has_id session_id) p f db.sessions same) ended.exists;
  closed = rw e (update_rows-none (may_revoke session_id) p f db.sessions ended.closed shut);
}

-- A new key is not that of a row in the table.
fresh_apart :
    (session_id id : Uuid) (db : Db)
    → any_row (session_has_id session_id) db.sessions ≡ true
    → any_row (session_has_id id) db.sessions ≡ false
    → (id == session_id) ≡ false
fresh_apart session_id id db old new = elim (Bool-cases (id == session_id)) [
  | inl e ↦ let same = ==→eq id session_id e in let no = rw same at new in absurd (cc)
  | inr e ↦ e
]

-- A revoked session stays one.
pub IsEnded-IsKept : (session_id : Uuid) → IsKept (IsEnded session_id) (λ _. Unit {0})
unfolding any_row revoke_auth_session revoke_all_user_sessions
IsEnded-IsKept session_id = record {
  created = λ arg id now db r db' _ ended h.
      let put = create_inserts arg id now db r db' h in
      let apart : (id == session_id) ≡ false =
        fresh_apart session_id id db ended.exists put.new_id in
      record {
        exists = rw (put.table, apart, ended.exists) refl;
        closed = rw (put.table, apart, ended.closed) refl;
      };
  rotated = λ old new id now db r db' _ ended h.
      let (x, done) = rotate_finds old new id now db r db' h in
      IsEnded-update session_id (may_rotate old now) (rotate_row new now) db db' (λ r. refl)
        (λ r e. e) ended done.table;
  revoked = λ other id now db u db' ended h.
      IsEnded-update session_id (may_revoke other) (revoke_row now) db db' (λ r. refl)
        (λ r e. ground arith) ended (revoke_table (may_revoke other) now db u db' h);
  revoked_all = λ user_id id now db u db' ended h.
      IsEnded-update session_id (may_revoke_of user_id) (revoke_row now) db db' (λ r. refl)
        (λ r e. ground arith) ended (revoke_table (may_revoke_of user_id) now db u db' h);
}
