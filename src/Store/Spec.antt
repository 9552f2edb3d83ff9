-- ===== src/Store/Spec.antt =====
-- Triples over actions: from tables with `P`, the action returns a value and tables with `Q`, or an
-- error with `F`; one rule for each way to put actions together.
use mlakp_backend.Base.{◌≡◌, refl, Bool, true, false, ok, err, Result, suc, Bool-cases, inl, inr}
use mlakp_backend.Store.{
  Server, World, Action, Query, SqlError, failed, Db, Uuid, Time, pure, throw, ◌>>=◌, throw_if,
  lift, on_error, map_result, exec, settle, finish, transaction,
}

abbrev pub Post : {E A : Type 0} → (A → Db → Type 0) → (E → Type 0) → Result E A × World → Type 0
Post Q F (ok a, w) = Q a w.db
Post Q F (err e, w) = F e

pub record Ensures {E A : Type 0} (P : Db → Type 0) (m : Action E A) (Q : A → Db → Type 0)
    (F : E → Type 0) : Type 0 where
  pub holds : (w : World) → P w.db → Post Q F (m w)

lift-Post :
    {E A : Type 0} (P : Db → Type 0) (F : E → Type 0) (r : Result E A) (w : World)
    → P w.db
    → ((e : E) → r ≡ err e → F e)
    → Post (λ a db. (r ≡ ok a) × P db) F (r, w)
lift-Post P F (ok a) w p h = (refl, p)
lift-Post P F (err e) w p h = h e refl

module _ {E A : Type 0} {P : Db → Type 0} where
  pub by_pure :
      {Q : A → Db → Type 0} {F : E → Type 0} (a : A)
      → ((db : Db) → P db → Q a db)
      → Ensures P (pure a) Q F
  by_pure a h = record { holds = λ w p. h w.db p }

  pub by_throw :
      {Q : A → Db → Type 0} {F : E → Type 0} (e : E)
      → ((db : Db) → P db → F e)
      → Ensures P (throw e) Q F
  by_throw e h = record { holds = λ w p. h w.db p }

  pub by_lift :
      {F : E → Type 0} (r : Result E A)
      → ((e : E) → r ≡ err e → F e)
      → Ensures P (lift r) (λ a db. (r ≡ ok a) × P db) F
  by_lift {F} r h = record { holds = λ w p. lift-Post P F r w p h }

pub by_throw_if :
    {E : Type 0} {P : Db → Type 0} {F : E → Type 0} (test : Bool) (e : E)
    → ((db : Db) → P db → test ≡ true → F e)
    → Ensures P (throw_if test e) (λ _ db. P db × (test ≡ false)) F
by_throw_if true e h = record { holds = λ w p. h w.db p refl }
by_throw_if false e h = record { holds = λ w p. (p, refl) }

bind-Post :
    {E A B : Type 0} {Q : A → Db → Type 0} {R : B → Db → Type 0} {F : E → Type 0}
    (f : A → Action E B) (r : Result E A) (w : World)
    → Post Q F (r, w)
    → ((a : A) → Ensures (Q a) (f a) R F)
    → Post R F (elim r [ ok a ↦ f a w | err e ↦ (err e, w) ])
bind-Post f (ok a) w h k = (k a).holds w h
bind-Post f (err e) w h k = h

pub by_bind :
    {E A B : Type 0} {P : Db → Type 0} {Q : A → Db → Type 0} {R : B → Db → Type 0} {F : E → Type 0}
    {m : Action E A} {f : A → Action E B}
    → Ensures P m Q F
    → ((a : A) → Ensures (Q a) (f a) R F)
    → Ensures P (m >>= f) R F
by_bind {m = m} {f = f} h k = record {
  holds = λ w p. let (r, w') = m w in bind-Post f r w' (h.holds w p) k;
}

pub weaken :
    {E A : Type 0} {P P' : Db → Type 0} {Q : A → Db → Type 0} {F : E → Type 0} {m : Action E A}
    → ((db : Db) → P' db → P db)
    → Ensures P m Q F
    → Ensures P' m Q F
weaken h s = record { holds = λ w p. s.holds w (h w.db p) }

strong-Post :
    {E A : Type 0} (Q R : A → Db → Type 0) (F : E → Type 0) (r : Result E A) (w : World)
    → ((a : A) (db : Db) → Q a db → R a db)
    → Post Q F (r, w)
    → Post R F (r, w)
strong-Post Q R F (ok a) w k h = k a w.db h
strong-Post Q R F (err e) w k h = h

pub strengthen :
    {E A : Type 0} {P : Db → Type 0} {Q R : A → Db → Type 0} {F : E → Type 0} {m : Action E A}
    → ((a : A) (db : Db) → Q a db → R a db)
    → Ensures P m Q F
    → Ensures P m R F
strengthen {Q = Q} {R = R} {F = F} {m = m} k h = record {
  holds = λ w p. let (r, w') = m w in strong-Post Q R F r w' k (h.holds w p);
}

error-Post :
    {E F A : Type 0} (Q : A → Db → Type 0) (B : F → Type 0) (f : E → F) (r : Result E A) (w : World)
    → Post Q (λ e. B (f e)) (r, w)
    → Post Q B (map_result f r, w)
error-Post Q B f (ok a) w h = h
error-Post Q B f (err e) w h = h

pub by_on_error :
    {E F A : Type 0} {P : Db → Type 0} {Q : A → Db → Type 0} {B : F → Type 0} {m : Action E A}
    (f : E → F)
    → Ensures P m Q (λ e. B (f e))
    → Ensures P (on_error f m) Q B
by_on_error {Q = Q} {B = B} {m = m} f h = record {
  holds = λ w p. let (r, w') = m w in error-Post Q B f r w' (h.holds w p);
}

module _ (s : Server) where
  settle-Post :
      {A : Type 0} {Q : A → Db → Type 0} {F : SqlError → Type 0} (w : World)
      (r : Result SqlError (A × Db))
      → ((a : A) (db' : Db) → r ≡ ok (a, db') → Q a db')
      → ((e : SqlError) → r ≡ err e → F e)
      → Post Q F (settle s w r)
  settle-Post w (ok (a, db)) h f = h a db refl
  settle-Post w (err e) h f = f e refl

  -- A statement may fail, or run with any id and time.
  pub by_exec :
      {A : Type 0} {P : Db → Type 0} {Q : A → Db → Type 0} {F : SqlError → Type 0} (q : Query A)
      → F failed
      → ((id : Uuid) (now : Time) (db : Db) (a : A) (db' : Db)
          → P db
          → q id now db ≡ ok (a, db')
          → Q a db')
      → ((id : Uuid) (now : Time) (db : Db) (e : SqlError) → P db → q id now db ≡ err e → F e)
      → Ensures P (exec s q) Q F
  unfolding exec
  by_exec q lost h f = record {
    holds = λ w p. elim (Bool-cases (s.fails w.tick)) [
      | inl e ↦ rw e lost
      | inr e ↦ rw e (
          settle-Post w (q (s.new_id w.tick) (s.now w.tick) w.db) (λ a db' r. h _ _ w.db a db' p r)
            (λ x r. f _ _ w.db x p r))
    ];
  }

  finish-Post :
      {E A : Type 0} (Q : A → Db → Type 0) (F : E → Type 0) (failure : E) (before : Db)
      (r : Result E A) (w : World)
      → F failure
      → Post Q F (r, w)
      → Post Q F (finish s failure before (r, w))
  finish-Post Q F failure before (err e) w lost h = h
  finish-Post Q F failure before (ok a) w lost h = elim (Bool-cases (s.fails w.tick)) [
    | inl f ↦ rw f lost
    | inr f ↦ rw f h
  ]

  pub by_transaction :
      {E A : Type 0} {P : Db → Type 0} {Q : A → Db → Type 0} {F : E → Type 0} {body : Action E A}
      (failure : E)
      → F failure
      → Ensures P body Q F
      → Ensures P (transaction s failure body) Q F
  unfolding transaction
  by_transaction {Q = Q} {F = F} {body = body} failure lost h = record {
    holds = λ w p. elim (Bool-cases (s.fails w.tick)) [
      | inl f ↦ rw f lost
      | inr f ↦
          let (r, w') = body (record w { tick = suc w.tick }) in
          rw f (finish-Post Q F failure w.db r w' lost (h.holds (record w { tick = suc w.tick }) p))
    ];
  }

-- A fact that the tables show, which does not change with them, is at hand for the rest.
pub by_fact :
    {E A : Type 0} {P : Db → Type 0} {Q : A → Db → Type 0} {F : E → Type 0} {m : Action E A}
    (R : Type 0)
    → ((db : Db) → P db → R)
    → (R → Ensures P m Q F)
    → Ensures P m Q F
by_fact R show rest = record { holds = λ w p. (rest (show w.db p)).holds w p }

-- A value that the tables show is at hand for the rest.
pub by_given :
    {E A X : Type 0} {P : X → Db → Type 0} {Q : A → Db → Type 0} {F : E → Type 0} {m : Action E A}
    → ((x : X) → Ensures (P x) m Q F)
    → Ensures (λ db. (x : X) × P x db) m Q F
by_given h = record { holds = λ w (x, p). (h x).holds w p }
