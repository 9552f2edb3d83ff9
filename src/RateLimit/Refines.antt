-- ===== src/RateLimit/Refines.antt =====
-- The limiter against one bucket for each client.
use mlakp_backend.Base.{
  ◌≡◌, refl, subst, ap, ◌∙◌, ℕ, suc, ◌≤◌, Bool, false, Option, none, some, List, [], ◌∷◌, ltb, leb,
  pos, Bool-cases, Option-cases, inl, inr, arith, All, All-map,
}
use mlakp_backend.Text.{Text, text_eq}
use mlakp_backend.Text.Laws.{text_eq_sound, text_eq_refl}
use mlakp_backend.RateLimit.{Entry, RateLimiter, allow, cleanup_expired, put, keep_live}
use mlakp_backend.RateLimit.Spec.{
  bucket_step, bucket_answers, answers, times_of, answers_to, IsOrdered,
}

pub ordered_times :
    (key : Text) (now : ℕ) (requests : List (ℕ × Text))
    → IsOrdered now requests
    → All (λ t. now ≤ t) (times_of key requests)
unfolding times_of
ordered_times key now [] h = tt
ordered_times key now ((time, other) ∷ requests) (first, later) =
    let rest =
      All-map (λ t. time ≤ t) (λ t. now ≤ t) (times_of key requests)
        (λ t h. omega (arith, h, first)) (ordered_times key time requests later) in
    elim (Bool-cases (text_eq other key)) [ inl e ↦ rw e (first, rest) | inr e ↦ rw e rest ]

-- An expired bucket answers like a missing one.
bucket_expired :
    (most window now : ℕ) (bucket : Option Entry) (times : List ℕ)
    → All (λ t. now ≤ t) times
    → bucket_answers most window (keep_live now bucket) times
      ≡ bucket_answers most window bucket times
unfolding bucket_answers
bucket_expired most window now bucket [] h = refl
bucket_expired most window now none (t ∷ times) h = refl
bucket_expired most window now (some e) (t ∷ times) (first, rest) =
    elim (Bool-cases (ltb now e.reset_at)) [
      | inl a ↦ rw a refl
      | inr a ↦ let late : ltb t e.reset_at ≡ false = ground (arith, first) in rw (a, late) refl
    ]

module _ (most now : ℕ) (l : RateLimiter) (positive : l.max_requests ≡ pos (suc most)) where
  -- A request asks its own bucket, once the expired ones are gone.
  pub asks :
      (key : Text) (bucket : Option Entry)
      → keep_live now (l.entries key) ≡ bucket
      → ((allow now key l).0 ≡ (bucket_step (suc most) l.window now bucket).0)
        × ((allow now key l).1.entries key ≡ (bucket_step (suc most) l.window now bucket).1)
        × ((allow now key l).1.max_requests ≡ l.max_requests)
        × ((allow now key l).1.window ≡ l.window)
  unfolding allow cleanup_expired put
  asks key none found = rw (positive, found) (refl, rw (text_eq_refl key) refl, refl, refl)
  asks key (some e) found = elim (Bool-cases (ltb now e.reset_at)) [
    | inr late ↦ rw (positive, found, late) (refl, rw (text_eq_refl key) refl, refl, refl)
    | inl early ↦ elim (Bool-cases (leb (suc most) e.count)) [
      | inl full ↦ rw (positive, found, early, full) (refl, found, refl, refl)
      | inr room ↦ rw (positive, found, early, room) (refl, rw (text_eq_refl key) refl, refl, refl)
    ]
  ]

  -- And leaves the other ones alone.
  pub passes :
      (key other : Text)
      → text_eq other key ≡ false
      → (allow now other l).1.entries key ≡ keep_live now (l.entries key)
  unfolding allow cleanup_expired put
  passes key other apart = elim (Option-cases (keep_live now (l.entries other))) [
    | inl a ↦ rw (positive, a, apart) refl
    | inr (e, a) ↦ elim (Bool-cases (ltb now e.reset_at)) [
      | inr late ↦ rw (positive, a, late, apart) refl
      | inl early ↦ elim (Bool-cases (leb (suc most) e.count)) [
        | inl full ↦ rw (positive, a, early, full) refl
        | inr room ↦ rw (positive, a, early, room, apart) refl
      ]
    ]
  ]

bucket_cons :
    (most window now : ℕ) (bucket : Option Entry) (times : List ℕ) {answer : Bool}
    {next : Option Entry} {rest : List Bool}
    → All (λ t. now ≤ t) times
    → answer ≡ (bucket_step most window now (keep_live now bucket)).0
    → next ≡ (bucket_step most window now (keep_live now bucket)).1
    → rest ≡ bucket_answers most window next times
    → answer ∷ rest ≡ bucket_answers most window bucket (now ∷ times)
unfolding bucket_answers
bucket_cons most window now bucket times {answer} {next} {rest} late head tail h =
    let now_or_later : All (λ t. now ≤ t) (now ∷ times) = (omega arith, late) in
    let live : answer ∷ rest ≡ bucket_answers most window (keep_live now bucket) (now ∷ times) =
      rw (h, head, tail) refl in
    live ∙ bucket_expired most window now bucket (now ∷ times) now_or_later

-- What a client is answered depends on its own requests alone: whatever other keys ask in between,
-- and whichever expired entries are removed, the answers to a key are those of one bucket that
-- counts its requests, where the limit is positive and the clock does not go back.
pub allow_refines :
    (most now : ℕ) (key : Text) (requests : List (ℕ × Text)) (l : RateLimiter)
    → l.max_requests ≡ pos (suc most)
    → IsOrdered now requests
    → answers_to key (answers l requests)
      ≡ bucket_answers (suc most) l.window (l.entries key) (times_of key requests)
unfolding answers answers_to times_of bucket_answers
allow_refines most now key [] l positive h = refl
allow_refines most now key ((time, other) ∷ requests) l positive (first, later) =
    let l' = (allow time other l).1 in
    let times = times_of key requests in
    let (head, tail, limit, window) =
      asks most time l positive other (keep_live time (l.entries other)) refl in
    let rest : answers_to key (answers l' requests)
        ≡ bucket_answers (suc most) l.window (l'.entries key) times =
      allow_refines most time key requests l' (limit ∙ positive) later
      ∙ ap (λ v. bucket_answers (suc most) v (l'.entries key) times) window in
    let late = ordered_times key time requests later in
    elim (Bool-cases (text_eq other key)) [
      | inl e ↦
          let same : other ≡ key = text_eq_sound other key e in
          rw e (
            bucket_cons (suc most) l.window time (l.entries key) times late
              (subst
                (λ o.
                  (allow time other l).0
                  ≡ (bucket_step (suc most) l.window time (keep_live time (l.entries o))).0)
                same head)
              (subst
                (λ o.
                  (allow time other l).1.entries o
                  ≡ (bucket_step (suc most) l.window time (keep_live time (l.entries o))).1)
                same tail)
              rest)
      | inr e ↦ rw e (
          rest
          ∙ ap (λ b. bucket_answers (suc most) l.window b times)
              (passes most time l positive key other e)
          ∙ bucket_expired (suc most) l.window time (l.entries key) times late)
    ]
