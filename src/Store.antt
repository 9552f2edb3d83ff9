-- ===== src/Store.antt =====
-- The database and the driver, as the repositories see them. The tables are lists of rows; every
-- SQL statement is a function of the tables (the modules below Sql). The server
-- draws ids (`gen_random_uuid()`), reads its clock (`now()`) and may fail at any statement: which
-- of them fail, the ids and the times are a parameter, `Server`, indexed by the statements run so
-- far. A statement is atomic, and transactions are run one after another: their row locks
-- (`FOR UPDATE`) are what the code takes to have them so.
pub mod Rows
pub mod Laws
pub mod Spec
pub mod Invariants
pub mod Keeps
pub mod Outside
pub mod Leads
pub use Rows.*
use mlakp_backend.Base.{
  ℕ, suc, Bool, true, false, Option, none, some, List, [], ◌∷◌, ◌++◌, Result, ok, err,
  if◌then◌else◌,
}
use mlakp_backend.Text.{Text}

-- What `QueryRow(...).Scan` or `Exec` returns for an error: `pgx.ErrNoRows`, a unique violation
-- (SQLSTATE 23505) with the name of its constraint, or anything else (another violated constraint,
-- a lost connection).
pub data SqlError : Type 0 where
  no_rows failed : SqlError
  duplicate : Text → SqlError

-- The parameters `fails`, `new_id` and `now` at the statement with a given number;
-- `commits_anyway` tells of a commit that reports an error whether it went through all the same
-- (a connection that is lost behind it).
pub record Server : Type 0 where
  pub fails : ℕ → Bool
  pub commits_anyway : ℕ → Bool
  pub new_id : ℕ → Uuid
  pub now : ℕ → Time

-- A call of `Notifier.Create` (notifications.CreateInput, its metadata left out).
pub record Notice : Type 0 where
  pub user_id : Text
  pub type : Text
  pub title : Text
  pub body : Text
  pub entity_type : Text
  pub entity_id : Text

-- The tables, the number of calls out of the program so far, and the notices handed to the notifier, the
-- latest first.
pub record World : Type 0 where
  pub db : Db
  pub tick : ℕ
  pub notices : List Notice

-- A call that may change the world; the world comes back after an error too.
abbrev pub Action : Type 0 → Type 0 → Type 0
Action E A = World → Result E A × World

-- One statement, given a fresh id and the time: rows and new tables, or an error and no change.
abbrev pub Query : Type 0 → Type 0
Query A = Uuid → Time → Db → Result SqlError (A × Db)

abbrev pub pure : {E A : Type 0} → A → Action E A
pure a w = (ok a, w)

abbrev pub throw : {E A : Type 0} → E → Action E A
throw e w = (err e, w)

-- `if err != nil { return err }` behind a call.
infixl 5 ◌>>=◌ ◌>>◌
abbrev pub ◌>>=◌ : {E A B : Type 0} → Action E A → (A → Action E B) → Action E B
◌>>=◌ m f w = let (r, w') = m w in elim r [ ok a ↦ f a w' | err e ↦ (err e, w') ]

abbrev pub ◌>>◌ : {E B : Type 0} → Action E (Unit {0}) → Action E B → Action E B
m >> k = m >>= λ _. k

abbrev pub throw_if : {E : Type 0} → Bool → E → Action E (Unit {0})
throw_if test e w = (if test then err e else ok tt, w)

-- The pure part of a method, such as the validation of its input.
abbrev pub lift : {E A : Type 0} → Result E A → Action E A
lift r w = (r, w)

-- `createNotification`: nothing happens without a notifier, and its errors are dropped.
abbrev pub notify : {E : Type 0} → Bool → Notice → Action E (Unit {0})
notify has_notifier n w =
    (ok tt, record w { notices = if has_notifier then n ∷ w.notices else w.notices })

-- A call whose error the caller looks at, or translates.
abbrev pub attempt : {E F A : Type 0} → Action E A → Action F (Result E A)
attempt m w = let (r, w') = m w in (ok r, w')

abbrev pub map_result : {E F A : Type 0} → (E → F) → Result E A → Result F A
map_result f (ok a) = ok a
map_result f (err e) = err (f e)

abbrev pub on_error : {E F A : Type 0} → (E → F) → Action E A → Action F A
on_error f m w = let (r, w') = m w in (map_result f r, w')

-- What a method reads from outside the database: the clock of the process and its source of random
-- bytes (`crypto/rand`, which may fail), at the call with a given number.
pub record Host : Type 0 where
  pub clock : ℕ → Time
  pub random : ℕ → Option ℕ

-- `time.Now()`
unfoldable pub read_clock : {E : Type 0} → Host → Action E Time
read_clock host w = (ok (host.clock w.tick), record w { tick = suc w.tick })

-- One read of random bytes; the bytes are given as a number.
unfoldable pub draw : {E : Type 0} → Host → E → Action E ℕ
draw host failure w = (
  elim (host.random w.tick) [ none ↦ err failure | some n ↦ ok n ],
  record w { tick = suc w.tick },
)

module _ (s : Server) where
  abbrev pub settle : {A : Type 0} → World → Result SqlError (A × Db) → Result SqlError A × World
  settle w (ok (a, db)) = (ok a, record w { db = db; tick = suc w.tick })
  settle w (err e) = (err e, record w { tick = suc w.tick })

  -- One statement sent to the server.
  unfoldable pub exec : {A : Type 0} → Query A → Action SqlError A
  exec q w =
      if s.fails w.tick
      then (err failed, record w { tick = suc w.tick })
      else settle w (q (s.new_id w.tick) (s.now w.tick) w.db)

  -- `Commit`, and the deferred `Rollback`, which restores the tables unless the commit went through.
  -- A commit that reports an error may have gone through.
  abbrev finish : {E A : Type 0} → E → Db → Result E A × World → Result E A × World
  finish failure before (err e, w) = (err e, record w { db = before; tick = suc w.tick })
  finish failure before (ok a, w) =
      if s.fails w.tick
      then (
        err failure,
        record w { db = if s.commits_anyway w.tick then w.db else before; tick = suc w.tick },
      )
      else (ok a, record w { tick = suc w.tick })

  -- `Begin`, the body, `Commit`.
  unfoldable pub transaction : {E A : Type 0} → E → Action E A → Action E A
  transaction failure body w =
      if s.fails w.tick
      then (err failure, record w { tick = suc w.tick })
      else finish failure w.db (body (record w { tick = suc w.tick }))
