-- ===== src/Sessions/Steps.antt =====
-- The requests to the service of sessions, and what each sequence of them keeps: an invariant of the
-- four statements that write the table is one of the service.
use mlakp_backend.Base.{
  ◌≡◌, ℕ, ◌+◌, Option, some, none, ok, err, Result, ok_injective, subst, Option-cases, inl, inr,
}
use mlakp_backend.Text.{Text, is_empty, trim_space}
use mlakp_backend.Store.{
  Server, Host, World, Db, Uuid, Time, SessionRow, exec, ◌>>=◌, draw, read_clock, on_error, pure,
}
use mlakp_backend.Store.Keeps.{Keeps, bind-Keeps, lift-Keeps, pure-Keeps}
use mlakp_backend.Store.Outside.{
  draw-Keeps, read_clock-Keeps, attempt-Keeps, on_error-Keeps, throw-Keeps, exec-Keeps,
  throw_if-Keeps, bind_returns-Keeps,
}
use mlakp_backend.Sql.Sessions.{
  CreateAuthSessionParams, create_auth_session, get_active_auth_session, rotate_refresh_token,
  revoke_auth_session, revoke_all_user_sessions, may_use,
}
use mlakp_backend.Sql.Debts.{one_row}
use mlakp_backend.Sql.Rows.{find_row}
use mlakp_backend.Sessions.{SessionError, Session, other, invalid_session, invalid_refresh_token}
use mlakp_backend.Sessions.Repository as Repository
use mlakp_backend.Sessions.Repository.{
  parse_uuid, any_error, invalid_token_or_other, invalid_session_or_other,
}
use mlakp_backend.Sessions.Service.{
  new_refresh_token, create, validate_access_session, refresh, revoke, revoke_all_for_user,
  any_is_invalid,
}

pub data Request : Type 0 where
  open_session : Text → Request
  validate_session : Text → Request
  refresh_session : Text → Request
  end_session : Text → Request
  end_all_of : Text → Request

-- A property of the tables that the statements keep, those with a new hash where the hash is good.
pub record IsKept (P : Db → Type 0) (Good : Text → Type 0) : Type 0 where
  pub created :
      (arg : CreateAuthSessionParams) (id : Uuid) (now : Time) (db : Db) (r : SessionRow) (db' : Db)
      → Good arg.refresh_token_hash
      → P db
      → create_auth_session arg id now db ≡ ok (r, db')
      → P db'
  pub rotated :
      (old new : Text) (id : Uuid) (now : Time) (db : Db) (r : SessionRow) (db' : Db)
      → Good new
      → P db
      → rotate_refresh_token old new id now db ≡ ok (r, db')
      → P db'
  pub revoked :
      (session_id id : Uuid) (now : Time) (db : Db) (u : Unit {0}) (db' : Db)
      → P db
      → revoke_auth_session session_id id now db ≡ ok (u, db')
      → P db'
  pub revoked_all :
      (user_id id : Uuid) (now : Time) (db : Db) (u : Unit {0}) (db' : Db)
      → P db
      → revoke_all_user_sessions user_id id now db ≡ ok (u, db')
      → P db'

found_same :
    {A : Type 0} (P : Db → Type 0) (o : Option A) (db : Db) (a : A) (db' : Db)
    → P db
    → one_row o db ≡ ok (a, db')
    → P db'
found_same P none db a db' p h = absurd (cc)
found_same P (some x) db a db' p h = let same : db ≡ db' = cc in subst P same p

module _ (scan : Text → Option Uuid) (encode : ℕ → Text) (fingerprint : Text → Text)
    (refresh_ttl : ℕ) where
  -- Every token that the source of random bytes can give has a good hash.
  abbrev pub DrawsGood : (Text → Type 0) → Host → Type 0
  DrawsGood Good host = (k n : ℕ) → host.random k ≡ some n → Good (fingerprint (encode n))

  -- The world after a request, with a server and a source of randomness of its own.
  unfoldable pub serve : Server → Host → Request → World → World
  serve s host (open_session user_id) w =
      (create s host scan encode fingerprint refresh_ttl user_id w).1
  serve s host (validate_session id) w =
      (validate_access_session s host scan encode fingerprint refresh_ttl id w).1
  serve s host (refresh_session token) w =
      (refresh s host scan encode fingerprint refresh_ttl token w).1
  serve s host (end_session id) w = (revoke s host scan encode fingerprint refresh_ttl id w).1
  serve s host (end_all_of user_id) w =
      (revoke_all_for_user s host scan encode fingerprint refresh_ttl user_id w).1

  -- The worlds that a sequence of requests leads to, whose drawn tokens all have good hashes.
  pub data Reaches (Good : Text → Type 0) (start : World) : World → Type 0 where
    nothing : Reaches Good start start
    then_one :
        (s : Server) (host : Host) (r : Request) {w : World}
        → DrawsGood Good host
        → Reaches Good start w
        → Reaches Good start (serve s host r w)

  module _ {P : Db → Type 0} {Good : Text → Type 0} (kept : IsKept P Good) (s : Server)
      (host : Host) (good : DrawsGood Good host) where
    drawn_is_good :
        (w : World) (token : Text × Text)
        → (new_refresh_token s host scan encode fingerprint refresh_ttl w).0 ≡ ok token
        → Good token.1
    unfolding new_refresh_token draw
    drawn_is_good w token h = elim (Option-cases (host.random w.tick)) [
      | inl e ↦ let no = rw e at h in absurd (cc)
      | inr (n, e) ↦ subst (λ t. Good t.1) (ok_injective (rw e at h)) (good w.tick n e)
    ]

    token-Keeps : Keeps P (new_refresh_token s host scan encode fingerprint refresh_ttl)
    unfolding new_refresh_token
    token-Keeps = bind-Keeps (draw-Keeps host other) (λ n. pure-Keeps _)

    stored-Keeps :
        (user_id hash : Text) (expires_at : Time)
        → Good hash
        → Keeps P (Repository.create s scan user_id hash expires_at)
    unfolding Repository.create
    stored-Keeps user_id hash expires_at fits =
        bind-Keeps (lift-Keeps (parse_uuid s scan user_id)) (λ user.
          let arg : CreateAuthSessionParams = record {
            user_id = user;
            refresh_token_hash = hash;
            expires_at = expires_at;
          } in
          bind-Keeps {m = on_error any_error (exec s (create_auth_session arg))}
            (on_error-Keeps any_error (
              exec-Keeps s (create_auth_session arg)
                (λ id t db r db' p e. kept.created arg id t db r db' fits p e)))
            (λ row. pure-Keeps _))

    rotate-Keeps : (old new : Text) → Good new → Keeps P (Repository.rotate s scan old new)
    unfolding Repository.rotate
    rotate-Keeps old new fits =
        bind-Keeps {m = on_error invalid_token_or_other (exec s (rotate_refresh_token old new))}
          (on_error-Keeps invalid_token_or_other (
            exec-Keeps s (rotate_refresh_token old new)
              (λ id t db r db' p e. kept.rotated old new id t db r db' fits p e)))
          (λ row. pure-Keeps _)

    create-Keeps :
        (user_id : Text) → Keeps P (create s host scan encode fingerprint refresh_ttl user_id)
    unfolding create
    create-Keeps user_id =
        bind-Keeps (throw_if-Keeps (is_empty (trim_space user_id)) invalid_session) (λ _.
          bind_returns-Keeps (λ token. Good token.1)
            {f = λ token. read_clock host >>= λ now.
              Repository.create s scan user_id token.1 (now + refresh_ttl) >>= λ session.
              pure (session, token.0)}
            token-Keeps drawn_is_good
            (λ token fits. bind-Keeps (read_clock-Keeps host) (λ now.
              bind-Keeps {f = λ session. pure (session, token.0)}
                {m = Repository.create s scan user_id token.1 (now + refresh_ttl)}
                (stored-Keeps user_id token.1 (now + refresh_ttl) fits)
                (λ session. pure-Keeps (session, token.0)))))

    refresh-Keeps :
        (token : Text) → Keeps P (refresh s host scan encode fingerprint refresh_ttl token)
    unfolding refresh
    refresh-Keeps used =
        let old = fingerprint (trim_space used) in
        bind-Keeps (throw_if-Keeps (is_empty (trim_space used)) invalid_refresh_token) (λ _.
          bind_returns-Keeps (λ token. Good token.1)
            {f = λ token.
              Repository.rotate s scan old token.1 >>= λ session. pure (session, token.0)}
            token-Keeps drawn_is_good
            (λ token fits.
              bind-Keeps {f = λ session. pure (session, token.0)}
                {m = Repository.rotate s scan old token.1} (rotate-Keeps old token.1 fits)
                (λ session. pure-Keeps (session, token.0))))

    invalid-Keeps : (r : Result SessionError Session) → Keeps P (any_is_invalid r)
    invalid-Keeps (ok session) = pure-Keeps tt
    invalid-Keeps (err e) = throw-Keeps invalid_session

    validate-Keeps :
        (id : Text)
        → Keeps P (validate_access_session s host scan encode fingerprint refresh_ttl id)
    unfolding validate_access_session Repository.get_active_by_id get_active_auth_session
    validate-Keeps id = bind-Keeps (throw_if-Keeps _ _) (λ _.
        bind-Keeps
          (attempt-Keeps (
            bind-Keeps (lift-Keeps (parse_uuid s scan id)) (λ u.
              bind-Keeps
                (on_error-Keeps invalid_session_or_other (
                  exec-Keeps s (get_active_auth_session u) (λ id now db r db' p e.
                    found_same P (find_row (may_use u now) db.sessions) db r db' p e)))
                (λ row. pure-Keeps _))))
          (λ r. invalid-Keeps r))

    revoke-Keeps : (id : Text) → Keeps P (revoke s host scan encode fingerprint refresh_ttl id)
    unfolding revoke Repository.revoke
    revoke-Keeps id = bind-Keeps (throw_if-Keeps _ _) (λ _.
        bind-Keeps (lift-Keeps (parse_uuid s scan id))
          (λ u. on_error-Keeps any_error (exec-Keeps s (revoke_auth_session u) (kept.revoked u))))

    revoke_all-Keeps :
        (id : Text) → Keeps P (revoke_all_for_user s host scan encode fingerprint refresh_ttl id)
    unfolding revoke_all_for_user Repository.revoke_all_for_user
    revoke_all-Keeps id = bind-Keeps (throw_if-Keeps _ _) (λ _.
        bind-Keeps (lift-Keeps (parse_uuid s scan id)) (λ u.
          on_error-Keeps any_error
            (exec-Keeps s (revoke_all_user_sessions u) (kept.revoked_all u))))

    serve-keeps : (r : Request) (w : World) → P w.db → P (serve s host r w).db
    unfolding serve
    serve-keeps (open_session user_id) w p = (create-Keeps user_id).at w p
    serve-keeps (validate_session id) w p = (validate-Keeps id).at w p
    serve-keeps (refresh_session token) w p = (refresh-Keeps token).at w p
    serve-keeps (end_session id) w p = (revoke-Keeps id).at w p
    serve-keeps (end_all_of user_id) w p = (revoke_all-Keeps user_id).at w p

  -- What the statements keep is kept by every sequence of requests.
  pub reaches-kept :
      {P : Db → Type 0} {Good : Text → Type 0}
      → IsKept P Good
      → {start w : World} → P start.db
      → Reaches Good start w
      → P w.db
  reaches-kept kept p nothing = p
  reaches-kept kept p (then_one s host r {w} good before) =
      serve-keeps kept s host good r w (reaches-kept kept p before)
