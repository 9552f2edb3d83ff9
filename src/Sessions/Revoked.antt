-- ===== src/Sessions/Revoked.antt =====
-- Revoked sessions, over sequences of requests.
use mlakp_backend.Base.{
  ◌≡◌, refl, sym, ap, subst, ℕ, Bool, true, false, not, ◌&&◌, Option, some, ok, err, Result, ◌==◌,
  arith, ok_injective,
}
use mlakp_backend.Text.{Text, trim_space, is_empty}
use mlakp_backend.Store.{Server, Host, World, Db, Uuid, Time, SessionRow, exec, on_error, lift}
use mlakp_backend.Store.Spec.{
  Ensures, by_pure, by_throw, by_throw_if, by_bind, weaken, strengthen, by_on_error, by_exec,
}
use mlakp_backend.Store.Outside.{ok_post, by_attempt, always_err}
use mlakp_backend.Sql.Rows.{find_row, any_row, any_row-update_rows, any_row_of_find, find_row_sound}
use mlakp_backend.Sql.Keys.{find_row-none, update_rows-settles, any_row_never, any_row-found}
use mlakp_backend.Sql.Sessions.{
  session_has_id, may_revoke, may_revoke_of, revoke_row, get_active_auth_session, may_use,
  revoke_auth_session, revoke_all_user_sessions,
}
use mlakp_backend.Sessions.{SessionError, Session, invalid_session}
use mlakp_backend.Sessions.Repository as Repository
use mlakp_backend.Sessions.Repository.{parse_uuid, invalid_session_or_other, any_error}
use mlakp_backend.Sessions.Service.{
  any_is_invalid, validate_access_session, revoke, revoke_all_for_user,
}
use mlakp_backend.Sessions.Steps.{Reaches, reaches-kept}
use mlakp_backend.Sessions.Laws.{same_session, HasSessionKeys, IsEnded}
use mlakp_backend.Sessions.Kept.{IsEnded-IsKept}

-- The session is in the table.
abbrev pub Exists : Uuid → Db → Type 0
Exists session_id db = any_row (session_has_id session_id) db.sessions ≡ true

revoke_ends :
    (session_id id : Uuid) (now : Time) (db : Db) (u : Unit {0}) (db' : Db)
    → Exists session_id db
    → revoke_auth_session session_id id now db ≡ ok (u, db')
    → IsEnded session_id db'
unfolding revoke_auth_session
revoke_ends session_id id now db u db' exists h =
    let table = sym (ap (λ x. x.1.sessions) (ok_injective h)) in
    record {
      exists =
          rw
            (
              table,
              any_row-update_rows (session_has_id session_id) (may_revoke session_id)
                  (revoke_row now) db.sessions (λ r. refl),
            )
            exists;
      closed = rw table (
          update_rows-settles (λ r. false) (may_revoke session_id) (may_revoke session_id)
            (revoke_row now) db.sessions (any_row_never db.sessions) (λ r _ e. ground arith)
            (λ r _ e. e));
    }

-- The session is one of the user's.
abbrev pub Belongs : Uuid → Uuid → Db → Type 0
Belongs user_id session_id db =
    (r : SessionRow) × (find_row (session_has_id session_id) db.sessions ≡ some r)
    × (r.user_id ≡ user_id)

revoke_all_ends :
    (user_id session_id id : Uuid) (now : Time) (db : Db) (u : Unit {0}) (db' : Db)
    → HasSessionKeys db × Belongs user_id session_id db
    → revoke_all_user_sessions user_id id now db ≡ ok (u, db')
    → IsEnded session_id db'
unfolding revoke_all_user_sessions
revoke_all_ends user_id session_id id now db u db' (keys, (x, found, owner)) h =
    let table = sym (ap (λ y. y.1.sessions) (ok_injective h)) in
    let exists : Exists session_id db =
      any_row_of_find (session_has_id session_id) (session_has_id session_id) db.sessions found
        (find_row_sound (session_has_id session_id) db.sessions found) in
    let foreign : SessionRow → Bool = λ r. not (r.user_id == user_id) in
    record {
      exists =
          rw
            (
              table,
              any_row-update_rows (session_has_id session_id) (may_revoke_of user_id)
                  (revoke_row now) db.sessions (λ r. refl),
            )
            exists;
      closed = rw table (
          update_rows-settles (λ r. session_has_id session_id r && foreign r)
            (may_revoke session_id) (may_revoke_of user_id) (revoke_row now) db.sessions
            (any_row-found same_session (session_has_id session_id) foreign db.sessions
              (λ r y hr hy. ground arith) keys.ids found (rw owner (ground arith)))
            (λ r _ e. ground arith) (λ r fine e. ground arith));
    }

ended_unusable :
    (session_id id : Uuid) (now : Time) (db : Db) (r : SessionRow) (db' : Db)
    → IsEnded session_id db
    → ¬ (get_active_auth_session session_id id now db ≡ ok (r, db'))
unfolding get_active_auth_session
ended_unusable session_id id now db r db' ended h =
    let gone =
      find_row-none (may_use session_id now) (may_revoke session_id) db.sessions ended.closed
        (λ y hy. ground arith) in
    let no = rw gone at h in absurd (cc)

module _ (s : Server) (host : Host) (scan : Text → Option Uuid) (encode : ℕ → Text)
    (fingerprint : Text → Text) (refresh_ttl : ℕ) where
  parsed : (value : Text) {u : Uuid} → scan value ≡ some u → parse_uuid s scan value ≡ ok u
  parsed value e = ground arith

  scanned :
      {P : Db → Type 0} {F : SessionError → Type 0} (value : Text) {u : Uuid}
      → scan value ≡ some u
      → Ensures P (lift (parse_uuid s scan value)) (λ v db. (v ≡ u) × P db) F
  scanned {P} {F} value {u} e =
      let run : Ensures P (lift (ok u)) (λ v db. (v ≡ u) × P db) F =
        by_pure u (λ db p. (refl, p)) in
      subst (λ r. Ensures P (lift r) (λ v db. (v ≡ u) × P db) F) (sym (parsed value e)) run

  abbrev Rejected : Result SessionError Session → Type 0
  Rejected r = (session : Session) → ¬ (r ≡ ok session)

  reject-Ensures :
      (r : Result SessionError Session)
      → Ensures (λ _. Rejected r) (any_is_invalid r) (λ _ _. ⊥) (λ e. e ≡ invalid_session)
  reject-Ensures (ok session) = record { holds = λ w no. absurd (no session refl) }
  reject-Ensures (err e) = by_throw invalid_session (λ _ _. refl)

  get-Ensures :
      (id : Text) {session_id : Uuid}
      → scan id ≡ some session_id
      → Ensures
          (IsEnded session_id)
          (Repository.get_active_by_id s scan id)
          (λ _ _. ⊥)
          (λ e. Db → Rejected (err e))
  unfolding Repository.get_active_by_id
  get-Ensures id {session_id} known = by_bind (scanned id known) (λ v.
      by_bind {m = on_error invalid_session_or_other (exec s (get_active_auth_session v))}
        (by_on_error invalid_session_or_other (
          by_exec s {Q = λ _ _. ⊥} (get_active_auth_session v) (λ _ session. cc)
            (λ t now db r db' (same, ended) h.
              ended_unusable session_id t now db r db' ended
                (subst (λ x. get_active_auth_session x t now db ≡ ok (r, db')) same h))
            (λ _ _ _ _ _ _ _ session. cc)))
        (λ row. by_pure _ (λ db impossible. absurd impossible)))

  -- An ended session is not validated.
  validate-Ensures :
      (id : Text) {session_id : Uuid}
      → scan id ≡ some session_id
      → Ensures
          (IsEnded session_id)
          (validate_access_session s host scan encode fingerprint refresh_ttl id)
          (λ _ _. ⊥)
          (λ e. e ≡ invalid_session)
  unfolding validate_access_session
  validate-Ensures id {session_id} known =
      by_bind (by_throw_if (is_empty (trim_space id)) invalid_session (λ _ _ _. refl)) (λ _.
        by_bind
          (weaken (λ db p. p.0)
            (by_attempt (λ r _. Rejected r)
              (strengthen (λ a db no. absurd no) (get-Ensures id known))))
          reject-Ensures)

  revoke-Ensures :
      (id : Text) {session_id : Uuid}
      → scan id ≡ some session_id
      → Ensures
          (Exists session_id)
          (revoke s host scan encode fingerprint refresh_ttl id)
          (λ _ db. IsEnded session_id db)
          (λ _. Unit {0})
  unfolding revoke Repository.revoke
  revoke-Ensures id {session_id} known =
      by_bind (by_throw_if (is_empty (trim_space id)) invalid_session (λ _ _ _. tt)) (λ _.
        weaken (λ db p. p.0)
          (by_bind (scanned id known) (λ v. by_on_error any_error (
            by_exec s {Q = λ _ db. IsEnded session_id db} (revoke_auth_session v) tt
              (λ t now db u db' (same, exists) h.
                revoke_ends session_id t now db u db' exists
                  (subst (λ x. revoke_auth_session x t now db ≡ ok (u, db')) same h))
              (λ _ _ _ _ _ _. tt)))))

  revoke_all-Ensures :
      (id : Text) {user_id : Uuid} (session_id : Uuid)
      → scan id ≡ some user_id
      → Ensures
          (λ db. HasSessionKeys db × Belongs user_id session_id db)
          (revoke_all_for_user s host scan encode fingerprint refresh_ttl id)
          (λ _ db. IsEnded session_id db)
          (λ _. Unit {0})
  unfolding revoke_all_for_user Repository.revoke_all_for_user
  revoke_all-Ensures id {user_id} session_id known =
      by_bind (by_throw_if (is_empty (trim_space id)) invalid_session (λ _ _ _. tt)) (λ _.
        weaken (λ db p. p.0)
          (by_bind (scanned id known) (λ v. by_on_error any_error (
            by_exec s {Q = λ _ db. IsEnded session_id db} (revoke_all_user_sessions v) tt
              (λ t now db u db' (same, owned) h.
                revoke_all_ends user_id session_id t now db u db' owned
                  (subst (λ x. revoke_all_user_sessions x t now db ≡ ok (u, db')) same h))
              (λ _ _ _ _ _ _. tt)))))

module _ (scan : Text → Option Uuid) (encode : ℕ → Text) (fingerprint : Text → Text)
    (refresh_ttl : ℕ) where
  ended_for_good :
      {now later : World} (session_id : Uuid)
      → IsEnded session_id now.db
      → Reaches scan encode fingerprint refresh_ttl (λ _. Unit {0}) now later
      → (s : Server) (host : Host) (id : Text) → scan id ≡ some session_id
      → (validate_access_session s host scan encode fingerprint refresh_ttl id later).0
        ≡ err invalid_session
  ended_for_good {later = later} session_id ended between s host id known =
      always_err (validate-Ensures s host scan encode fingerprint refresh_ttl id known) later
        (reaches-kept scan encode fingerprint refresh_ttl (IsEnded-IsKept session_id) ended between)

  -- A session that is revoked, and was there, is never validated again: after any sequence of
  -- requests, validating its id gives the error for an invalid session, whatever the server does.
  pub revoke_final :
      (s : Server) (host : Host) (id : Text) {session_id : Uuid} (start : World) {now later : World}
      → scan id ≡ some session_id
      → Exists session_id start.db
      → revoke s host scan encode fingerprint refresh_ttl id start ≡ (ok tt, now)
      → Reaches scan encode fingerprint refresh_ttl (λ _. Unit {0}) now later
      → (s' : Server) (host' : Host)
      → (validate_access_session s' host' scan encode fingerprint refresh_ttl id later).0
        ≡ err invalid_session
  revoke_final s host id {session_id} start {now} known exists done between s' host' =
      let ended =
        subst (λ w. IsEnded session_id w.db) (ap (λ x. x.1) done)
          (ok_post (revoke-Ensures s host scan encode fingerprint refresh_ttl id known) start exists
            (ap (λ x. x.0) done)) in
      ended_for_good session_id ended between s' host' id known

  -- Revoking all sessions of a user ends each of them: after any sequence of requests, validating
  -- the id of one that was the user's gives the error for an invalid session, where the sessions had
  -- unique ids and hashes at first.
  pub revoke_all_final :
      (s : Server) (host : Host) (user : Text) {user_id : Uuid} (id : Text) {session_id : Uuid}
      (start : World) {now later : World}
      → scan user ≡ some user_id
      → scan id ≡ some session_id
      → HasSessionKeys start.db
      → Belongs user_id session_id start.db
      → revoke_all_for_user s host scan encode fingerprint refresh_ttl user start ≡ (ok tt, now)
      → Reaches scan encode fingerprint refresh_ttl (λ _. Unit {0}) now later
      → (s' : Server) (host' : Host)
      → (validate_access_session s' host' scan encode fingerprint refresh_ttl id later).0
        ≡ err invalid_session
  revoke_all_final s host user id {session_id} start known known_id keys owned done between s'
        host' =
      let ended =
        subst (λ w. IsEnded session_id w.db) (ap (λ x. x.1) done)
          (ok_post
            (revoke_all-Ensures s host scan encode fingerprint refresh_ttl user session_id known)
            start (keys, owned) (ap (λ x. x.0) done)) in
      ended_for_good session_id ended between s' host' id known_id
