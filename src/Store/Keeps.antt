-- ===== src/Store/Keeps.antt =====
-- What a whole call keeps, whether it returns a value or an error: a property of the tables, and the
-- notices, which only the services add to.
use mlakp_backend.Base.{
  ◌∷◌, ap, ◌≡◌, refl, ◌∙◌, ok, err, Result, Bool, true, suc, Bool-cases, inl, inr,
}
use mlakp_backend.Store.{
  Server, World, Action, Query, SqlError, Db, Notice, pure, throw_if, lift, on_error, ◌>>=◌, notify,
  exec, settle, finish, transaction,
}

module _ {E A : Type 0} where
  pub record Keeps (P : Db → Type 0) (m : Action E A) : Type 0 where
    pub at : (w : World) → P w.db → P (m w).1.db

  -- The call hands nothing to the notifier.
  pub record IsSilent (m : Action E A) : Type 0 where
    pub at : (w : World) → (m w).1.notices ≡ w.notices

  pub lift-Keeps : {P : Db → Type 0} (r : Result E A) → Keeps P (lift r)
  lift-Keeps r = record { at = λ w p. p }

  pub lift-IsSilent : (r : Result E A) → IsSilent (lift r)
  lift-IsSilent r = record { at = λ w. refl }

module _ {E A B : Type 0} {f : A → Action E B} where
  bind_at :
      {P : Db → Type 0} (r : Result E A) (w : World)
      → P w.db
      → ((a : A) → Keeps P (f a))
      → P (◌>>=◌ (λ _. (r, w)) f w).1.db
  bind_at (ok a) w p k = (k a).at w p
  bind_at (err e) w p k = p

  pub bind-Keeps :
      {P : Db → Type 0} {m : Action E A} → Keeps P m → ((a : A) → Keeps P (f a)) → Keeps P (m >>= f)
  bind-Keeps {m = m} h k = record { at = λ w p. let (r, w') = m w in bind_at r w' (h.at w p) k }

  silent_at :
      (r : Result E A) (w : World)
      → ((a : A) → IsSilent (f a))
      → (◌>>=◌ (λ _. (r, w)) f w).1.notices ≡ w.notices
  silent_at (ok a) w k = (k a).at w
  silent_at (err e) w k = refl

  pub bind-IsSilent :
      {m : Action E A} → IsSilent m → ((a : A) → IsSilent (f a)) → IsSilent (m >>= f)
  bind-IsSilent {m = m} h k = record { at = λ w. let (r, w') = m w in silent_at r w' k ∙ h.at w }

pub notify-Keeps :
    {E : Type 0} {P : Db → Type 0} (b : Bool) (n : Notice) → Keeps {E = E} P (notify b n)
notify-Keeps b n = record { at = λ w p. p }

pub pure-Keeps : {E A : Type 0} {P : Db → Type 0} (a : A) → Keeps {E = E} P (pure a)
pure-Keeps a = record { at = λ w p. p }

pub pure-IsSilent : {E A : Type 0} (a : A) → IsSilent {E = E} (pure a)
pure-IsSilent a = record { at = λ w. refl }

pub throw_if-IsSilent : {E : Type 0} (b : Bool) (e : E) → IsSilent (throw_if b e)
throw_if-IsSilent b e = record { at = λ w. refl }

pub on_error-IsSilent :
    {E F A : Type 0} (f : E → F) {m : Action E A} → IsSilent m → IsSilent (on_error f m)
on_error-IsSilent f h = record { at = λ w. h.at w }

module _ (s : Server) where
  settle_silent :
      {A : Type 0} (w : World) (r : Result SqlError (A × Db)) → (settle s w r).1.notices ≡ w.notices
  settle_silent w (ok (a, db)) = refl
  settle_silent w (err e) = refl

  pub exec-IsSilent : {A : Type 0} (q : Query A) → IsSilent (exec s q)
  unfolding exec
  exec-IsSilent q = record {
    at = λ w. elim (Bool-cases (s.fails w.tick)) [
      | inl e ↦ rw e refl
      | inr e ↦ rw e (settle_silent w (q (s.new_id w.tick) (s.now w.tick) w.db))
    ];
  }

  finish_silent :
      {E A : Type 0} (failure : E) (before : Db) (r : Result E A) (w : World)
      → (finish s failure before (r, w)).1.notices ≡ w.notices
  finish_silent failure before (err e) w = refl
  finish_silent failure before (ok a) w = elim (Bool-cases (s.fails w.tick)) [
    | inl f ↦ rw f refl
    | inr f ↦ rw f refl
  ]

  pub transaction-IsSilent :
      {E A : Type 0} (failure : E) {body : Action E A}
      → IsSilent body
      → IsSilent (transaction s failure body)
  unfolding transaction
  transaction-IsSilent failure {body} h = record {
    at = λ w. elim (Bool-cases (s.fails w.tick)) [
      | inl f ↦ rw f refl
      | inr f ↦
          let (r, w') = body (record w { tick = suc w.tick }) in
          rw f (finish_silent failure w.db r w' ∙ h.at (record w { tick = suc w.tick }))
    ];
  }

-- `r, err := m(); if err != nil { return err }; createNotification; return r`.
abbrev pub and_notify : {E A : Type 0} → Bool → (A → Notice) → A → Action E A
and_notify has_notifier note a = notify has_notifier (note a) >>= λ _. pure a

pub validated-Keeps :
    {E A B : Type 0} {P : Db → Type 0} (r : Result E A) (f : A → Action E B)
    → ((a : A) → Keeps P (f a))
    → Keeps P (lift r >>= f)
validated-Keeps r f k = bind-Keeps {f = f} {m = lift r} (lift-Keeps r) k

pub and_notify-Keeps :
    {E A : Type 0} {P : Db → Type 0} (m : Action E A) (has_notifier : Bool) (note : A → Notice)
    → Keeps P m
    → Keeps P (m >>= and_notify has_notifier note)
and_notify-Keeps m has_notifier note h =
    bind-Keeps {f = and_notify has_notifier note} {m = m} h (λ a. record { at = λ w p. p })

module _ {E A : Type 0} (note : A → Notice) where
  noted_at :
      (r : Result E A) (w : World) {a : A}
      → (◌>>=◌ (λ _. (r, w)) (and_notify true note) w).0 ≡ ok a
      → (◌>>=◌ (λ _. (r, w)) (and_notify true note) w).1.notices ≡ note a ∷ w.notices
  noted_at (ok x) w h = cc
  noted_at (err e) w h = cc

  unnoted_at :
      (r : Result E A) (w : World) {e : E}
      → (◌>>=◌ (λ _. (r, w)) (and_notify true note) w).0 ≡ err e
      → (◌>>=◌ (λ _. (r, w)) (and_notify true note) w).1.notices ≡ w.notices
  unnoted_at (ok x) w h = cc
  unnoted_at (err e) w h = refl

  -- One notice for a value, none for an error.
  pub notified :
      (m : Action E A)
      → IsSilent m
      → (w : World) {a : A} → ((m >>= and_notify true note) w).0 ≡ ok a
      → ((m >>= and_notify true note) w).1.notices ≡ note a ∷ w.notices
  notified m h w {a} e = let (r, w') = m w in noted_at r w' e ∙ ap (λ ns. note a ∷ ns) (h.at w)

  pub not_notified :
      (m : Action E A)
      → IsSilent m
      → (w : World) {e : E} → ((m >>= and_notify true note) w).0 ≡ err e
      → ((m >>= and_notify true note) w).1.notices ≡ w.notices
  not_notified m h w e = let (r, w') = m w in unnoted_at r w' e ∙ h.at w
