-- ===== src/Sessions/Safety.antt =====
-- Tokens that are used up and sessions that are revoked, over sequences of requests.
use mlakp_backend.Base.{◌≡◌, refl, sym, ap, ℕ, true, false, Option, ok, arith, subst}
use mlakp_backend.Text.{Text, text_eq, trim_space, is_empty}
use mlakp_backend.Text.Laws.{text_eq_sound}
use mlakp_backend.Store.{
  Server, Host, World, Db, Uuid, Time, SessionRow, exec, on_error, pure, ◌>>=◌,
}
use mlakp_backend.Store.Spec.{
  Ensures, by_pure, by_throw_if, by_bind, weaken, by_on_error, by_exec, by_fact,
}
use mlakp_backend.Store.Outside.{by_draw, never_ok, ok_post}
use mlakp_backend.Sql.Keys.{find_row-none, update_rows-rekey}
use mlakp_backend.Sql.Sessions.{rotate_refresh_token, has_hash, same_hash, may_rotate, rotate_row}
use mlakp_backend.Sessions.{Session, other, invalid_refresh_token}
use mlakp_backend.Sessions.Repository as Repository
use mlakp_backend.Sessions.Repository.{invalid_token_or_other}
use mlakp_backend.Sessions.Service.{new_refresh_token, refresh}
use mlakp_backend.Sessions.Steps.{Reaches, DrawsGood, reaches-kept}
use mlakp_backend.Sessions.Laws.{HasSessionKeys, IsSpent, rotate_finds}
use mlakp_backend.Sessions.Kept.{IsSpent-IsKept}

one_hash :
    (hash : Text) (x y : SessionRow)
    → has_hash hash x ≡ true
    → has_hash hash y ≡ true
    → same_hash x y ≡ true
one_hash hash x y hx hy = let a = text_eq_sound hash x.refresh_token_hash hx in rw (sym a, hy) refl

-- A rotation to another hash uses the old one up.
rotate-IsSpent :
    (old new : Text) (id : Uuid) (now : Time) (db : Db) (r : SessionRow) (db' : Db)
    → text_eq old new ≡ false
    → HasSessionKeys db
    → rotate_refresh_token old new id now db ≡ ok (r, db')
    → IsSpent old db'
rotate-IsSpent old new id now db r db' apart keys h =
    let (x, done) = rotate_finds old new id now db r db' h in
    record {
      absent = rw done.table (
          update_rows-rekey same_hash (has_hash old) (may_rotate old now) (rotate_row new now)
            db.sessions (one_hash old) (λ y hy. ground arith) (λ y. apart) keys.hashes done.found);
    }

-- A used-up hash is not found.
spent_rotate :
    (old new : Text) (id : Uuid) (now : Time) (db : Db) (r : SessionRow) (db' : Db)
    → IsSpent old db
    → ¬ (rotate_refresh_token old new id now db ≡ ok (r, db'))
spent_rotate old new id now db r db' spent h =
    let (x, done) = rotate_finds old new id now db r db' h in
    let none_such =
      find_row-none (may_rotate old now) (has_hash old) db.sessions spent.absent
        (λ y hy. ground arith) in
    absurd (let found = done.found in cc)

-- The statement of a rotation, and the whole call of the repository.
rotate-Ensures :
    (s : Server) (scan : Text → Option Uuid) {P Q : Db → Type 0} (old new : Text)
    → ((id : Uuid) (now : Time) (db : Db) (r : SessionRow) (db' : Db)
        → P db
        → rotate_refresh_token old new id now db ≡ ok (r, db')
        → Q db')
    → Ensures P (Repository.rotate s scan old new) (λ _ db. Q db) (λ _. Unit {0})
unfolding Repository.rotate
rotate-Ensures s scan {Q = Q} old new h =
    by_bind {m = on_error invalid_token_or_other (exec s (rotate_refresh_token old new))}
      (by_on_error invalid_token_or_other (
        by_exec s {Q = λ _ db. Q db} {F = λ _. Unit {0}} (rotate_refresh_token old new) tt h
          (λ _ _ _ _ _ _. tt)))
      (λ row. by_pure _ (λ db q. q))

module _ (scan : Text → Option Uuid) (encode : ℕ → Text) (fingerprint : Text → Text)
    (refresh_ttl : ℕ) where
  abbrev token_hash : Text → Text
  token_hash token = fingerprint (trim_space token)

  -- The hashes other than the one of a token.
  abbrev pub IsOther : Text → Text → Type 0
  IsOther token hash = text_eq (token_hash token) hash ≡ false

  module _ (s : Server) (host : Host) (token : Text) where
    new_token-Ensures :
        {P : Db → Type 0} (Good : Text → Type 0)
        → DrawsGood scan encode fingerprint refresh_ttl Good host
        → Ensures P
            (new_refresh_token s host scan encode fingerprint refresh_ttl)
            (λ t db. P db × Good t.1)
            (λ _. Unit {0})
    unfolding new_refresh_token
    new_token-Ensures Good good =
        by_bind (by_draw host other tt) (λ n. by_pure _ (λ db (p, (k, e)). (p, good k n e)))

    refresh-Ensures :
        {P Q : Db → Type 0} (Good : Text → Type 0)
        → DrawsGood scan encode fingerprint refresh_ttl Good host
        → ((new : Text)
            → Good new
            → Ensures P
                (Repository.rotate s scan (token_hash token) new)
                (λ _ db. Q db)
                (λ _. Unit {0}))
        → Ensures P
            (refresh s host scan encode fingerprint refresh_ttl token)
            (λ _ db. Q db)
            (λ _. Unit {0})
    unfolding refresh
    refresh-Ensures {P} {Q} Good good rotates =
        by_bind (by_throw_if (is_empty (trim_space token)) invalid_refresh_token (λ _ _ _. tt))
          (λ _.
            by_bind
              {f = λ new. Repository.rotate s scan (token_hash token) new.1 >>= λ session.
                pure (session, new.0)}
              (weaken (λ db p. p.0) (new_token-Ensures {P = P} Good good))
              (λ (new : Text × Text).
                by_fact (Good new.1) (λ db p. p.1)
                  (λ fits.
                    weaken (λ db p. p.0)
                      (by_bind {f = λ session. pure (session, new.0)} (rotates new.1 fits)
                        (λ session. by_pure (session, new.0) (λ db q. q))))))

  -- A refresh token works once. After a refresh with it, whatever requests are served next, and
  -- whatever the servers do in them, no refresh with it returns a session, where the sessions had
  -- unique ids and hashes at first and no token drawn has the hash of this one.
  pub refresh_once :
      (s : Server) (host : Host) (token : Text) (start : World) {now later : World}
      {first : Session × Text}
      → HasSessionKeys start.db
      → DrawsGood scan encode fingerprint refresh_ttl (IsOther token) host
      → refresh s host scan encode fingerprint refresh_ttl token start ≡ (ok first, now)
      → Reaches scan encode fingerprint refresh_ttl (IsOther token) now later
      → (s' : Server) (host' : Host) (second : Session × Text)
      → DrawsGood scan encode fingerprint refresh_ttl (IsOther token) host'
      → ¬ ((refresh s' host' scan encode fingerprint refresh_ttl token later).0 ≡ ok second)
  refresh_once s host token start {now} keys good used between s' host' second good' =
      let old = token_hash token in
      let run =
        refresh-Ensures s host token {P = HasSessionKeys} {Q = IsSpent old} (IsOther token) good
          (λ new fits.
            rotate-Ensures s scan old new
              (λ id t db r db' p e. rotate-IsSpent old new id t db r db' fits p e)) in
      let spent : IsSpent old now.db =
        subst (λ w. IsSpent old w.db) (ap (λ x. x.1) used)
          (ok_post run start keys (ap (λ x. x.0) used)) in
      let refused =
        refresh-Ensures s' host' token {P = IsSpent old} {Q = λ _. ⊥} (IsOther token) good'
          (λ new fits.
            rotate-Ensures s' scan old new
              (λ id t db r db' p e. absurd (spent_rotate old new id t db r db' p e))) in
      never_ok (λ a db impossible. impossible) refused _
        (reaches-kept scan encode fingerprint refresh_ttl (IsSpent-IsKept old) spent between) second
