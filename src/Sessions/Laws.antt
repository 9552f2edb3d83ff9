-- ===== src/Sessions/Laws.antt =====
-- What the statements on the table of sessions keep: unique keys, a hash that is used up, and a
-- session that is revoked.
use mlakp_backend.Base.{
  ◌≡◌, refl, sym, ap, ok_injective, Bool, true, false, Option, none, some, ◌∷◌, ok, err, ◌==◌,
  Bool-cases, inl, inr, ltb,
}
use mlakp_backend.Text.{Text}
use mlakp_backend.Store.{Db, Uuid, Time, SessionRow, no_rows}
use mlakp_backend.Sql.Rows.{find_row, update_rows, any_row}
use mlakp_backend.Sql.Keys.{distinct}
use mlakp_backend.Sql.Sessions.{
  CreateAuthSessionParams, new_session, create_auth_session, rotate_refresh_token, has_hash,
  same_hash, session_has_id, may_rotate, rotate_row, checked_sessions, may_revoke, user_has_id,
}

-- `PRIMARY KEY`
abbrev pub same_session : SessionRow → SessionRow → Bool
same_session r x = x.id == r.id

-- No two sessions share an id or a hash.
pub record HasSessionKeys (db : Db) : Type 0 where
  pub ids : distinct same_session db.sessions ≡ true
  pub hashes : distinct same_hash db.sessions ≡ true

-- No session has the hash.
pub record IsSpent (hash : Text) (db : Db) : Type 0 where
  pub absent : any_row (has_hash hash) db.sessions ≡ false

-- The session exists and is revoked.
pub record IsEnded (session_id : Uuid) (db : Db) : Type 0 where
  pub exists : any_row (session_has_id session_id) db.sessions ≡ true
  pub closed : any_row (may_revoke session_id) db.sessions ≡ false

-- What an insertion that returns has checked, and what it returns.
pub record Inserted (arg : CreateAuthSessionParams) (id : Uuid) (now : Time) (db : Db)
    (r : SessionRow) (db' : Db) : Type 0 where
  pub row : r ≡ new_session arg id now
  pub table : db'.sessions ≡ new_session arg id now ∷ db.sessions
  pub new_id : any_row (session_has_id id) db.sessions ≡ false
  pub new_hash : any_row (has_hash arg.refresh_token_hash) db.sessions ≡ false

pub create_inserts :
    (arg : CreateAuthSessionParams) (id : Uuid) (now : Time) (db : Db) (r : SessionRow) (db' : Db)
    → create_auth_session arg id now db ≡ ok (r, db')
    → Inserted arg id now db r db'
unfolding create_auth_session
create_inserts arg id now db r db' h = elim (Bool-cases (ltb now arg.expires_at)) [
  | inr a ↦ let no = rw a at h in absurd (cc)
  | inl a ↦ elim (Bool-cases (any_row (session_has_id id) db.sessions)) [
    | inl b ↦ let no = rw (a, b) at h in absurd (cc)
    | inr b ↦ elim (Bool-cases (any_row (has_hash arg.refresh_token_hash) db.sessions)) [
      | inl c ↦ let no = rw (a, b, c) at h in absurd (cc)
      | inr c ↦ elim (Bool-cases (any_row (user_has_id arg.user_id) db.users)) [
        | inr d ↦ let no = rw (a, b, c, d) at h in absurd (cc)
        | inl d ↦
            let done = ok_injective (rw (a, b, c, d) at h) in
            record {
              row = sym (ap (λ x. x.0) done);
              table = sym (ap (λ x. x.1.sessions) done);
              new_id = b;
              new_hash = c;
            }
      ]
    ]
  ]
]

-- A rotation that returns has found the session with the old hash.
pub record Rotated (old new : Text) (now : Time) (db : Db) (db' : Db) (r : SessionRow)
    (x : SessionRow) : Type 0 where
  pub found : find_row (may_rotate old now) db.sessions ≡ some x
  pub row : r ≡ rotate_row new now x
  pub table : db'.sessions ≡ update_rows (may_rotate old now) (rotate_row new now) db.sessions
  pub hashes : distinct same_hash db'.sessions ≡ true

checked_at :
    (old new : Text) (now : Time) (db : Db) (r : SessionRow) (db' : Db) (x : SessionRow)
    → find_row (may_rotate old now) db.sessions ≡ some x
    → checked_sessions db
        (rotate_row new now x)
        (update_rows (may_rotate old now) (rotate_row new now) db.sessions)
      ≡ ok (r, db')
    → Rotated old new now db db' r x
checked_at old new now db r db' x found h =
    let rows = update_rows (may_rotate old now) (rotate_row new now) db.sessions in
    elim (Bool-cases (distinct same_hash rows)) [
      | inr e ↦ let no = rw e at h in absurd (cc)
      | inl e ↦
          let done = ok_injective (rw e at h) in
          let table : db'.sessions ≡ rows = sym (ap (λ y. y.1.sessions) done) in
          record {
            found = found;
            row = sym (ap (λ y. y.0) done);
            table = table;
            hashes = rw table e;
          }
    ]

Rotated-at :
    (old new : Text) (now : Time) (db : Db) (r : SessionRow) (db' : Db) (o : Option SessionRow)
    → find_row (may_rotate old now) db.sessions ≡ o
    → elim o [
      | none ↦ err no_rows
      | some x ↦
          checked_sessions db
            (rotate_row new now x)
            (update_rows (may_rotate old now) (rotate_row new now) db.sessions)
    ]
      ≡ ok (r, db')
    → (x : SessionRow) × Rotated old new now db db' r x
Rotated-at old new now db r db' none found h = absurd (cc)
Rotated-at old new now db r db' (some x) found h = (x, checked_at old new now db r db' x found h)

pub rotate_finds :
    (old new : Text) (id : Uuid) (now : Time) (db : Db) (r : SessionRow) (db' : Db)
    → rotate_refresh_token old new id now db ≡ ok (r, db')
    → (x : SessionRow) × Rotated old new now db db' r x
unfolding rotate_refresh_token
rotate_finds old new id now db r db' h =
    Rotated-at old new now db r db' (find_row (may_rotate old now) db.sessions) refl h
