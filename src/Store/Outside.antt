-- ===== src/Store/Outside.antt =====
-- The clock and the random bytes of the process leave the tables alone: their rules for triples, for
-- what a call keeps, and for a call that cannot return a value.
use mlakp_backend.Base.{Bool, ◌≡◌, ℕ, refl, ap, ok, err, Result, some, Option-cases, inl, inr}
use mlakp_backend.Store.{
  Server, World, Action, Query, Db, Uuid, Time, Host, read_clock, draw, exec, attempt, on_error,
  throw, throw_if, ◌>>=◌,
}
use mlakp_backend.Store.Spec.{Post, Ensures}
use mlakp_backend.Store.Invariants.{exec_invariant, post_ok}
use mlakp_backend.Store.Keeps.{Keeps}

module _ {E : Type 0} {P : Db → Type 0} (host : Host) where
  pub by_read_clock : {F : E → Type 0} → Ensures P (read_clock host) (λ (_ : Time) db. P db) F
  unfolding read_clock
  by_read_clock = record { holds = λ w p. p }

  -- A time that is read is one that the clock shows.
  pub by_clock_shows :
      {F : E → Type 0}
      → Ensures P (read_clock host) (λ (now : Time) db. P db × ((k : ℕ) × (host.clock k ≡ now))) F
  unfolding read_clock
  by_clock_shows = record { holds = λ w p. (p, (w.tick, refl)) }

  pub read_clock-Keeps : Keeps {E = E} P (read_clock host)
  unfolding read_clock
  read_clock-Keeps = record { at = λ w p. p }

  -- A drawn number is one that the source gives.
  pub by_draw :
      {F : E → Type 0} (failure : E)
      → F failure
      → Ensures P (draw host failure) (λ n db. P db × ((k : ℕ) × (host.random k ≡ some n))) F
  unfolding draw
  by_draw failure lost = record {
    holds = λ w p. elim (Option-cases (host.random w.tick)) [
      | inl e ↦ rw e lost
      | inr (n, e) ↦ rw e (p, (w.tick, e))
    ];
  }

  pub draw-Keeps : (failure : E) → Keeps P (draw host failure)
  unfolding draw
  draw-Keeps failure = record { at = λ w p. p }

pub attempt-Keeps :
    {E F A : Type 0} {P : Db → Type 0} {m : Action E A} → Keeps P m → Keeps {E = F} P (attempt m)
attempt-Keeps h = record { at = λ w p. h.at w p }

pub on_error-Keeps :
    {E F A : Type 0} {P : Db → Type 0} {m : Action E A} (f : E → F)
    → Keeps P m
    → Keeps P (on_error f m)
on_error-Keeps f h = record { at = λ w p. h.at w p }

pub throw-Keeps : {E A : Type 0} {P : Db → Type 0} (e : E) → Keeps P (throw {A = A} e)
throw-Keeps e = record { at = λ w p. p }

pub exec-Keeps :
    (s : Server) {A : Type 0} {P : Db → Type 0} (q : Query A)
    → ((id : Uuid) (now : Time) (db : Db) (a : A) (db' : Db)
        → P db
        → q id now db ≡ ok (a, db')
        → P db')
    → Keeps P (exec s q)
exec-Keeps s {P = P} q h = record { at = exec_invariant s P q h }

never-Post :
    {E A : Type 0} (Q : A → Db → Type 0) (F : E → Type 0) (r : Result E A) (w : World)
    → ((a : A) (db : Db) → ¬ Q a db)
    → Post Q F (r, w)
    → (a : A) → ¬ (r ≡ ok a)
never-Post Q F (ok b) w none_such h a e = none_such b w.db h
never-Post Q F (err x) w none_such h a e = absurd (cc)

-- A call with an impossible postcondition returns no value.
pub never_ok :
    {E A : Type 0} {P : Db → Type 0} {Q : A → Db → Type 0} {F : E → Type 0} {m : Action E A}
    → ((a : A) (db : Db) → ¬ Q a db)
    → Ensures P m Q F
    → (w : World) → P w.db
    → (a : A) → ¬ ((m w).0 ≡ ok a)
never_ok {Q = Q} {F = F} {m = m} none_such h w p =
    never-Post Q F (m w).0 (m w).1 none_such (h.holds w p)

-- A call that returns a value has its postcondition.
pub ok_post :
    {E A : Type 0} {P : Db → Type 0} {Q : A → Db → Type 0} {F : E → Type 0} {m : Action E A}
    → Ensures P m Q F
    → (w : World) {a : A} → P w.db
    → (m w).0 ≡ ok a
    → Q a (m w).1.db
ok_post {Q = Q} {F = F} {m = m} h w p e = post_ok Q F (m w).0 (m w).1 (h.holds w p) e

pub throw_if-Keeps :
    {E : Type 0} {P : Db → Type 0} (test : Bool) (e : E) → Keeps P (throw_if test e)
throw_if-Keeps test e = record { at = λ w p. p }

module _ {E A B : Type 0} {P : Db → Type 0} (R : A → Type 0) {f : A → Action E B} where
  returned_at :
      (r : Result E A) (w : World)
      → P w.db
      → ((a : A) → r ≡ ok a → R a)
      → ((a : A) → R a → Keeps P (f a))
      → P (◌>>=◌ (λ _. (r, w)) f w).1.db
  returned_at (ok a) w p returns k = (k a (returns a refl)).at w p
  returned_at (err e) w p returns k = p

  -- The rest of a method may rely on what is known of the value that a call returns.
  pub bind_returns-Keeps :
      {m : Action E A}
      → Keeps P m
      → ((w : World) (a : A) → (m w).0 ≡ ok a → R a)
      → ((a : A) → R a → Keeps P (f a))
      → Keeps P (m >>= f)
  bind_returns-Keeps {m = m} h returns k = record {
    at = λ w p. let (r, w') = m w in returned_at r w' (h.at w p) (returns w) k;
  }

attempt_post :
    {E A : Type 0} (F G : Type 0) (R : Result E A → Db → Type 0) (r : Result E A) (w : World)
    → Post (λ a db. R (ok a) db) (λ e. (db : Db) → R (err e) db) (r, w)
    → R r w.db
attempt_post F G R (ok a) w h = h
attempt_post F G R (err e) w h = h w.db

pub by_attempt :
    {E F A : Type 0} {P : Db → Type 0} (R : Result E A → Db → Type 0) {B : F → Type 0}
    {m : Action E A}
    → Ensures P m (λ a db. R (ok a) db) (λ e. (db : Db) → R (err e) db)
    → Ensures P (attempt m) R B
by_attempt {E} {F} R {m = m} h = record {
  holds = λ w p. attempt_post E F R (m w).0 (m w).1 (h.holds w p);
}

failing-Post :
    {E A : Type 0} (Q : A → Db → Type 0) {e : E} (r : Result E A) (w : World)
    → ((a : A) (db : Db) → ¬ Q a db)
    → Post Q (λ x. x ≡ e) (r, w)
    → r ≡ err e
failing-Post Q (ok a) w none_such h = absurd (none_such a w.db h)
failing-Post Q (err x) w none_such h = ap err h

-- A call that returns no value, and no other error, returns that error.
pub always_err :
    {E A : Type 0} {P : Db → Type 0} {e : E} {m : Action E A}
    → Ensures P m (λ _ _. ⊥) (λ x. x ≡ e)
    → (w : World) → P w.db
    → (m w).0 ≡ err e
always_err {m = m} h w p = failing-Post (λ _ _. ⊥) (m w).0 (m w).1 (λ a db no. no) (h.holds w p)
