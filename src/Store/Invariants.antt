-- ===== src/Store/Invariants.antt =====
-- What a whole call keeps, and what holds of what it returns, from the triple of its body.
use mlakp_backend.Base.{ok_injective, ◌≡◌, refl, subst, ok, err, Result, suc, Bool-cases, inl, inr}
use mlakp_backend.Store.{
  Server, World, Action, Query, SqlError, Db, Uuid, Time, ◌>>=◌, lift, exec, settle, transaction,
}
use mlakp_backend.Store.Laws.{transaction_keeps}
use mlakp_backend.Store.Spec.{Post, Ensures, by_transaction}

pub post_ok :
    {E A : Type 0} (Q : A → Db → Type 0) (F : E → Type 0) (r : Result E A) (w : World) {a : A}
    → Post Q F (r, w)
    → r ≡ ok a
    → Q a w.db
post_ok Q F (ok b) w h e = subst (λ c. Q c w.db) (ok_injective e) h
post_ok Q F (err x) w h e = absurd (cc)

-- Where the body of a transaction keeps a property of the tables whenever it succeeds, the
-- transaction keeps it in any case.
pub transaction_invariant :
    (s : Server) {E A : Type 0} (P : Db → Type 0) (F : E → Type 0) (failure : E) (body : Action E A)
    → Ensures P body (λ _ db. P db) F
    → (w : World) → P w.db
    → P (transaction s failure body w).1.db
transaction_invariant s P F failure body h w p = transaction_keeps s P failure body w p λ a e.
    let begun : World = record w { tick = suc w.tick } in
    post_ok (λ _ db. P db) F (body begun).0 (body begun).1 (h.holds begun p) e

settled :
    (s : Server) {A : Type 0} (P : Db → Type 0) (w : World) (r : Result SqlError (A × Db))
    → P w.db
    → ((a : A) (db' : Db) → r ≡ ok (a, db') → P db')
    → P (settle s w r).1.db
settled s P w (ok (a, db)) p h = h a db refl
settled s P w (err e) p h = p

-- The same for a single statement.
pub exec_invariant :
    (s : Server) {A : Type 0} (P : Db → Type 0) (q : Query A)
    → ((id : Uuid) (now : Time) (db : Db) (a : A) (db' : Db)
        → P db
        → q id now db ≡ ok (a, db')
        → P db')
    → (w : World) → P w.db
    → P (exec s q w).1.db
unfolding exec
exec_invariant s P q h w p = elim (Bool-cases (s.fails w.tick)) [
  | inl e ↦ rw e p
  | inr e ↦
      rw e (
        settled s P w (q (s.new_id w.tick) (s.now w.tick) w.db) p (λ a db' r. h _ _ w.db a db' p r))
]

-- A method that validates its input and then runs a transaction keeps what the transaction keeps.
pub validated_invariant :
    (s : Server) {E A B : Type 0} (P : Db → Type 0) (failure : E) (r : Result E A)
    (body : A → Action E B)
    → ((a : A) → Ensures P (body a) (λ _ db. P db) (λ _. Unit {0}))
    → (w : World) → P w.db
    → P ((lift r >>= λ a. transaction s failure (body a)) w).1.db
validated_invariant s P failure (ok a) body h w p =
    transaction_invariant s P (λ _. Unit {0}) failure (body a) (h a) w p
validated_invariant s P failure (err e) body h w p = p

-- Where the method returns a value, the postcondition of its transaction holds.
pub validated_returns :
    (s : Server) {E A B : Type 0} (P : Db → Type 0) (Q : B → Db → Type 0) (failure : E)
    (r : Result E A) (body : A → Action E B)
    → ((a : A) → r ≡ ok a → Ensures P (body a) Q (λ _. Unit {0}))
    → (w : World) {b : B} → P w.db
    → ((lift r >>= λ a. transaction s failure (body a)) w).0 ≡ ok b
    → Q b ((lift r >>= λ a. transaction s failure (body a)) w).1.db
validated_returns s {E = E} P Q failure (ok a) body h w p e =
    let run = by_transaction s {Q = Q} {F = λ (_ : E). Unit {0}} failure tt (h a refl) in
    post_ok Q (λ (_ : E). Unit {0}) _ (transaction s failure (body a) w).1 (run.holds w p) e
validated_returns s P Q failure (err x) body h w p e = absurd (cc)

pub post_err :
    {E A : Type 0} (Q : A → Db → Type 0) (F : E → Type 0) (r : Result E A) (w : World) {e : E}
    → Post Q F (r, w)
    → r ≡ err e
    → F e
post_err Q F (ok b) w h e = absurd (cc)
post_err Q F (err x) w {e} h same = let twin : x ≡ e = cc in subst F twin h
