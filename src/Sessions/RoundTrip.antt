-- ===== src/Sessions/RoundTrip.antt =====
-- Opening a session, and refreshing it with the token that came with it.
use mlakp_backend.Base.{
  ◌≡◌, refl, sym, ap, subst, ◌∙◌, ℕ, suc, ◌+◌, true, false, Option, some, List, ◌∷◌, ok, ltb,
}
use mlakp_backend.Text.{Text, trim_space, is_empty}
use mlakp_backend.Store.{
  Server, Host, World, Action, Db, Uuid, Time, SessionRow, exec, draw, on_error, pure, ◌>>=◌,
}
use mlakp_backend.Store.Laws.{exec_returns, bind_runs, on_error_runs}
use mlakp_backend.Store.Spec.{
  Ensures, by_pure, by_lift, by_throw_if, by_bind, by_on_error, by_exec, weaken, by_fact,
}
use mlakp_backend.Store.Outside.{by_draw, by_read_clock, ok_post}
use mlakp_backend.Sql.Rows.{any_row}
use mlakp_backend.Sql.Sessions.{
  CreateAuthSessionParams, new_session, create_auth_session, rotate_refresh_token, has_hash,
  rotate_row,
}
use mlakp_backend.Sessions.{SessionError, Session, session_from_sqlc, other, invalid_session}
use mlakp_backend.Sessions.Repository as Repository
use mlakp_backend.Sessions.Repository.{parse_uuid, any_error, invalid_token_or_other}
use mlakp_backend.Sessions.Service.{new_refresh_token, create, refresh}
use mlakp_backend.Sessions.Laws.{HasSessionKeys, create_inserts}
use mlakp_backend.Sessions.Newest.{IsNewest, newest_rotates, any_row-tail}

module _ (s : Server) (host : Host) (scan : Text → Option Uuid) (encode : ℕ → Text)
    (fingerprint : Text → Text) (refresh_ttl : ℕ) where
  -- The session is the newest one, and the token's hash is its.
  record IsOpened (session : Session) (token : Text) (db : Db) : Type 0 where
    pub row : SessionRow
    pub others : List SessionRow
    pub newest : IsNewest row others db
    pub is_session : session ≡ session_from_sqlc row
    pub drawn : ℕ
    pub is_token : token ≡ encode drawn
    pub hashed : row.refresh_token_hash ≡ fingerprint token

  stored-Ensures :
      (user_id token : Text) (n : ℕ) (expires_at : Time)
      → token ≡ encode n
      → Ensures HasSessionKeys
          (Repository.create s scan user_id (fingerprint token) expires_at)
          (λ session db. IsOpened session token db)
          (λ _. Unit {0})
  unfolding Repository.create
  stored-Ensures user_id token n expires_at made =
      by_bind (by_lift (parse_uuid s scan user_id) (λ _ _. tt)) (λ user.
        let arg : CreateAuthSessionParams = record {
          user_id = user;
          refresh_token_hash = fingerprint token;
          expires_at = expires_at;
        } in
        by_bind {Q = λ r db. IsOpened (session_from_sqlc r) token db}
          {m = on_error any_error (exec s (create_auth_session arg))}
          (by_on_error any_error (
            by_exec s (create_auth_session arg) tt
              (λ id now db r db' (known, keys) h.
                let put = create_inserts arg id now db r db' h in
                record {
                  row = new_session arg id now;
                  others = db.sessions;
                  newest = record {
                    table = put.table;
                    unrevoked = refl;
                    alone = put.new_hash;
                    apart = keys.hashes;
                  };
                  is_session = ap session_from_sqlc put.row;
                  drawn = n;
                  is_token = made;
                  hashed = refl;
                })
              (λ _ _ _ _ _ _. tt)))
          (λ r. by_pure (session_from_sqlc r) (λ db v. v)))

  create-Ensures :
      (user_id : Text)
      → Ensures HasSessionKeys
          (create s host scan encode fingerprint refresh_ttl user_id)
          (λ p db. IsOpened p.0 p.1 db)
          (λ _. Unit {0})
  unfolding create new_refresh_token
  create-Ensures user_id =
      by_bind (by_throw_if (is_empty (trim_space user_id)) invalid_session (λ _ _ _. tt)) (λ _.
        by_bind
          {Q = λ t db. HasSessionKeys db × ((n : ℕ) × (t.0 ≡ encode n) × (t.1 ≡ fingerprint t.0))}
          (by_bind (weaken (λ db p. p.0) (by_draw host other tt))
            (λ n. by_pure (encode n, fingerprint (encode n)) (λ db p. (p.0, (n, refl, refl)))))
          (λ (t : Text × Text).
            by_fact ((n : ℕ) × (t.0 ≡ encode n) × (t.1 ≡ fingerprint t.0)) (λ db p. p.1)
              (λ (n, made, hashed).
                weaken (λ db p. p.0)
                  (by_bind (by_read_clock host) (λ now.
                    by_bind {f = λ session. pure (session, t.0)}
                      (subst
                        (λ h.
                          Ensures HasSessionKeys
                            (Repository.create s scan user_id h (now + refresh_ttl))
                            (λ session db. IsOpened session t.0 db) (λ _. Unit {0}))
                        (sym hashed) (stored-Ensures user_id t.0 n (now + refresh_ttl) made))
                      (λ session. by_pure (session, t.0) (λ db v. v)))))))

  drawn_token :
      (w : World) (n : ℕ)
      → host.random w.tick ≡ some n
      → new_refresh_token s host scan encode fingerprint refresh_ttl w
        ≡ (ok (encode n, fingerprint (encode n)), record w { tick = suc w.tick })
  unfolding new_refresh_token draw
  drawn_token w n e =
      bind_runs (draw host other) (λ bytes. pure (encode bytes, fingerprint (encode bytes))) w
        (rw e refl)

  rotation_runs :
      (old new : Text) (w : World) {r : SessionRow} {db : Db}
      → s.fails w.tick ≡ false
      → rotate_refresh_token old new (s.new_id w.tick) (s.now w.tick) w.db ≡ ok (r, db)
      → Repository.rotate s scan old new w
        ≡ (ok (session_from_sqlc r), record w { db = db; tick = suc w.tick })
  unfolding Repository.rotate
  rotation_runs old new w up h =
      bind_runs (on_error invalid_token_or_other (exec s (rotate_refresh_token old new)))
        (λ row. pure (session_from_sqlc row)) w
        (on_error_runs invalid_token_or_other (exec s (rotate_refresh_token old new)) w
          (exec_returns s (rotate_refresh_token old new) w up h))

  refresh_runs :
      (token : Text) (w : World) (n : ℕ) {r : SessionRow} {db : Db}
      → is_empty (trim_space token) ≡ false
      → host.random w.tick ≡ some n
      → s.fails (suc w.tick) ≡ false
      → rotate_refresh_token
          (fingerprint (trim_space token))
          (fingerprint (encode n))
          (s.new_id (suc w.tick))
          (s.now (suc w.tick))
          w.db
        ≡ ok (r, db)
      → (refresh s host scan encode fingerprint refresh_ttl token w).0
        ≡ ok (session_from_sqlc r, encode n)
  unfolding refresh
  refresh_runs token w n {r} some_token e up h =
      let old = fingerprint (trim_space token) in
      let finish : Text × Text → Action SessionError (Session × Text) =
        λ t. Repository.rotate s scan old t.1 >>= λ session. pure (session, t.0) in
      let begun : World = record w { tick = suc w.tick } in
      let first =
        bind_runs (new_refresh_token s host scan encode fingerprint refresh_ttl) finish w
          (drawn_token w n e) in
      let second =
        bind_runs (Repository.rotate s scan old (fingerprint (encode n)))
          (λ session. pure (session, encode n)) begun
          (rotation_runs old (fingerprint (encode n)) begun up h) in
      rw some_token (ap (λ x. x.0) first ∙ ap (λ x. x.0) second)

-- The token that comes with a new session refreshes it: at once, and before the session expires, it
-- returns the new token and the same session, where the sessions had unique ids and hashes, the
-- statement does not fail, the hash of the new token is not in use, and encoded bytes are neither
-- empty nor stand between blanks.
pub create-refresh :
    (s s' : Server) (host host' : Host) (scan : Text → Option Uuid) (encode : ℕ → Text)
    (fingerprint : Text → Text) (refresh_ttl : ℕ) (user_id : Text) (start : World) (fresh : ℕ)
    {now : World} {session : Session} {token : Text}
    → ((n : ℕ) → (trim_space (encode n) ≡ encode n) × (is_empty (encode n) ≡ false))
    → HasSessionKeys start.db
    → create s host scan encode fingerprint refresh_ttl user_id start ≡ (ok (session, token), now)
    → host'.random now.tick ≡ some fresh
    → s'.fails (suc now.tick) ≡ false
    → ltb (s'.now (suc now.tick)) session.expires_at ≡ true
    → any_row (has_hash (fingerprint (encode fresh))) now.db.sessions ≡ false
    → (next : Session) × ((refresh s' host' scan encode fingerprint refresh_ttl token now).0
        ≡ ok (next, encode fresh))
      × (next.id ≡ session.id)
      × (next.user_id ≡ session.user_id)
      × (next.expires_at ≡ session.expires_at)
unfolding session_from_sqlc any_row
create-refresh s s' host host' scan encode fingerprint refresh_ttl user_id start fresh {now}
      {session} {token} plain keys done drawn up in_time unused =
    let opened : IsOpened s host scan encode fingerprint refresh_ttl session token now.db =
      subst (λ w. IsOpened s host scan encode fingerprint refresh_ttl session token w.db)
        (ap (λ x. x.1) done)
        (ok_post (create-Ensures s host scan encode fingerprint refresh_ttl user_id) start keys
          (ap (λ x. x.0) done)) in
    let row = opened.row in
    let time = s'.now (suc now.tick) in
    let new = fingerprint (encode fresh) in
    let whole : trim_space token ≡ token =
      subst (λ t. trim_space t ≡ t) (sym opened.is_token) (plain opened.drawn).0 in
    let filled : is_empty (trim_space token) ≡ false =
      ap is_empty whole
      ∙ subst (λ t. is_empty t ≡ false) (sym opened.is_token) (plain opened.drawn).1 in
    let hash : row.refresh_token_hash ≡ fingerprint (trim_space token) =
      opened.hashed ∙ ap fingerprint (sym whole) in
    let fresh_here : any_row (has_hash new) (row ∷ opened.others) ≡ false =
      subst (λ rows. any_row (has_hash new) rows ≡ false) opened.newest.table unused in
    let later : ltb time row.expires_at ≡ true =
      subst (λ x. ltb time x.expires_at ≡ true) opened.is_session in_time in
    let rotated =
      newest_rotates row opened.others now.db new (s'.new_id (suc now.tick)) time opened.newest
        (any_row-tail (has_hash new) row opened.others fresh_here) later in
    let ran =
      refresh_runs s' host' scan encode fingerprint refresh_ttl token now fresh filled drawn up (
        subst
          (λ h.
            rotate_refresh_token h new (s'.new_id (suc now.tick)) time now.db
            ≡ ok (
              rotate_row new time row,
              record now.db { sessions = rotate_row new time row ∷ opened.others },
            ))
          hash rotated) in
    (
      session_from_sqlc (rotate_row new time row),
      ran,
      sym (ap (λ x. x.id) opened.is_session),
      sym (ap (λ x. x.user_id) opened.is_session),
      sym (ap (λ x. x.expires_at) opened.is_session),
    )
