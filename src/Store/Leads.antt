-- ===== src/Store/Leads.antt =====
-- What the tables are after a call, whether it returns a value or an error, from what they are before.
use mlakp_backend.Base.{◌≡◌, refl, ok, err, Result, Bool, true, false, Bool-cases, inl, inr}
use mlakp_backend.Store.{
  Server, Host, World, Action, Query, SqlError, Db, Uuid, Time, pure, throw, throw_if, lift,
  on_error, ◌>>=◌, read_clock, exec, settle,
}
use mlakp_backend.Store.Spec.{Post, Ensures}

pub record Leads {E A : Type 0} (P Q : Db → Type 0) (m : Action E A) : Type 0 where
  pub at : (w : World) → P w.db → Q (m w).1.db

module _ {E A B : Type 0} {Q : Db → Type 0} (R : A → Db → Type 0) (F : E → Type 0)
    {f : A → Action E B} where
  led_at :
      (r : Result E A) (w : World)
      → Post R F (r, w)
      → Q w.db
      → ((a : A) → Leads (R a) Q (f a))
      → Q (◌>>=◌ (λ _. (r, w)) f w).1.db
  led_at (ok a) w h q k = (k a).at w h
  led_at (err e) w h q k = q

  -- The rest of a method may rely on the postcondition of a call.
  pub bind-Leads :
      {P : Db → Type 0} {m : Action E A}
      → Leads P Q m
      → Ensures P m R F
      → ((a : A) → Leads (R a) Q (f a))
      → Leads P Q (m >>= f)
  bind-Leads {m = m} l h k = record {
    at = λ w p. let (r, w') = m w in led_at r w' (h.holds w p) (l.at w p) k;
  }

module _ {E B : Type 0} {P Q : Db → Type 0} (stay : (db : Db) → P db → Q db) where
  pub throw-Leads : (e : E) → Leads P Q (throw {A = B} e)
  throw-Leads e = record { at = λ w p. stay w.db p }

  pub pure-Leads : (b : B) → Leads P Q (pure {E = E} b)
  pure-Leads b = record { at = λ w p. stay w.db p }

  pub guard-Leads :
      (test : Bool) (e : E) (rest : Unit {0} → Action E B)
      → (test ≡ false → Leads P Q (rest tt))
      → Leads P Q (throw_if test e >>= rest)
  guard-Leads true e rest h = record { at = λ w p. stay w.db p }
  guard-Leads false e rest h = record { at = λ w p. (h refl).at w p }

  pub lift-Leads :
      {A : Type 0} (r : Result E A) {rest : A → Action E B}
      → ((a : A) → r ≡ ok a → Leads P Q (rest a))
      → Leads P Q (lift r >>= rest)
  lift-Leads (ok a) h = record { at = λ w p. (h a refl).at w p }
  lift-Leads (err e) h = record { at = λ w p. stay w.db p }

module _ {E B : Type 0} {P Q : Db → Type 0} where
  pub clock-Leads :
      (host : Host) {rest : Time → Action E B}
      → ((now : Time) → Leads P Q (rest now))
      → Leads P Q (read_clock host >>= rest)
  unfolding read_clock
  clock-Leads host h = record { at = λ w p. (h (host.clock w.tick)).at _ p }

settled_at :
    (s : Server) {A : Type 0} (Q : Db → Type 0) (w : World) (r : Result SqlError (A × Db))
    → Q w.db
    → ((a : A) (db' : Db) → r ≡ ok (a, db') → Q db')
    → Q (settle s w r).1.db
settled_at s Q w (ok (a, db)) q h = h a db refl
settled_at s Q w (err e) q h = q

pub exec-Leads :
    (s : Server) {A : Type 0} {P Q : Db → Type 0} (q : Query A)
    → ((db : Db) → P db → Q db)
    → ((id : Uuid) (now : Time) (db : Db) (a : A) (db' : Db)
        → P db
        → q id now db ≡ ok (a, db')
        → Q db')
    → Leads P Q (exec s q)
unfolding exec
exec-Leads s {Q = Q} q stay h = record {
  at = λ w p. elim (Bool-cases (s.fails w.tick)) [
    | inl e ↦ rw e (stay w.db p)
    | inr e ↦ rw e (
        settled_at s Q w (q (s.new_id w.tick) (s.now w.tick) w.db) (stay w.db p)
          (λ a db' r. h _ _ w.db a db' p r))
  ];
}

followed_at :
    {E A B : Type 0} (Q : Db → Type 0) (f : A → Action E B) (r : Result E A) (w : World)
    → Q w.db
    → ((a : A) → Leads Q Q (f a))
    → Q (◌>>=◌ (λ _. (r, w)) f w).1.db
followed_at Q f (ok a) w q k = (k a).at w q
followed_at Q f (err e) w q k = q

module _ {E A : Type 0} {P Q : Db → Type 0} {m : Action E A} where
  -- What a call leads to, and the rest keeps.
  pub then-Leads :
      {B : Type 0} {f : A → Action E B}
      → Leads P Q m
      → ((a : A) → Leads Q Q (f a))
      → Leads P Q (m >>= f)
  then-Leads {f = f} l k = record {
    at = λ w p. let (r, w') = m w in followed_at Q f r w' (l.at w p) k;
  }

  pub on_error-Leads : {G : Type 0} (f : E → G) → Leads P Q m → Leads P Q (on_error f m)
  on_error-Leads f l = record { at = λ w p. l.at w p }
