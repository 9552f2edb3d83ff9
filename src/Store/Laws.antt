-- ===== src/Store/Laws.antt =====
-- Laws of transactions and of single statements.
use mlakp_backend.Base.{◌≡◌, refl, ap, ◌∙◌, false, ok, err, Result, Bool-cases, inl, inr, suc}
use mlakp_backend.Store.{
  on_error, ◌>>=◌, Server, World, Action, Query, Db, exec, settle, finish, transaction,
}

module _ (s : Server) {E A : Type 0} where
  finish_keeps :
      (P : Db → Type 0) (failure : E) (before : Db) (r : Result E A) (w : World)
      → P before
      → ((a : A) → r ≡ ok a → P w.db)
      → P (finish s failure before (r, w)).1.db
  finish_keeps P failure before (err x) w h keep = h
  finish_keeps P failure before (ok a) w h keep = elim (Bool-cases (s.fails w.tick)) [
    | inl f ↦ rw f (elim (Bool-cases (s.commits_anyway w.tick)) [
      | inl through ↦ rw through (keep a refl)
      | inr lost ↦ rw lost h
    ])
    | inr f ↦ rw f (keep a refl)
  ]

  -- A property of the tables that the body keeps where it succeeds is kept by the transaction.
  pub transaction_keeps :
      (P : Db → Type 0) (failure : E) (body : Action E A) (w : World)
      → P w.db
      → ((a : A)
          → (body (record w { tick = suc w.tick })).0 ≡ ok a
          → P (body (record w { tick = suc w.tick })).1.db)
      → P (transaction s failure body w).1.db
  unfolding transaction
  transaction_keeps P failure body w h keep = elim (Bool-cases (s.fails w.tick)) [
    | inl f ↦ rw f h
    | inr f ↦
        let (r, w') = body (record w { tick = suc w.tick }) in
        rw f (finish_keeps P failure w.db r w' h keep)
  ]

-- A statement that does not fail is run on the tables.
pub exec_runs :
    (s : Server) {A : Type 0} (q : Query A) (w : World)
    → s.fails w.tick ≡ false
    → exec s q w ≡ settle s w (q (s.new_id w.tick) (s.now w.tick) w.db)
unfolding exec
exec_runs s q w h = rw h refl

-- A statement that does not fail and returns a value.
pub exec_returns :
    (s : Server) {A : Type 0} (q : Query A) (w : World) {a : A} {db : Db}
    → s.fails w.tick ≡ false
    → q (s.new_id w.tick) (s.now w.tick) w.db ≡ ok (a, db)
    → exec s q w ≡ (ok a, record w { db = db; tick = suc w.tick })
exec_returns s q w up h = exec_runs s q w up ∙ ap (settle s w) h

-- What follows on a call that returns a value.
pub bind_runs :
    {E A B : Type 0} (m : Action E A) (f : A → Action E B) (w : World) {a : A} {w' : World}
    → m w ≡ (ok a, w')
    → (m >>= f) w ≡ f a w'
bind_runs m f w h = ap (λ x. ◌>>=◌ (λ _. x) f w) h

pub on_error_runs :
    {E F A : Type 0} (g : E → F) (m : Action E A) (w : World) {a : A} {w' : World}
    → m w ≡ (ok a, w')
    → on_error g m w ≡ (ok a, w')
on_error_runs g m w h = ap (λ x. on_error g (λ _. x) w) h
