-- ===== src/RateLimit/Bounds.antt =====
-- How many requests a client gets through, and when it is let through again.
use mlakp_backend.Base.{
  ◌≡◌, refl, sym, ap, subst, ◌∙◌, ℕ, suc, ◌+◌, ◌*◌, ◌≤◌, ◌<◌, true, false, List, [], ◌∷◌, ◌++◌, ℤ,
  pos, Bool-cases, inl, inr, All,
}
use mlakp_backend.Text.{Text, text_eq}
use mlakp_backend.Text.Laws.{text_eq_sound, text_eq_refl}
use mlakp_backend.RateLimit.{RateLimiter, allow, keep_live, new_rate_limiter, positive_window}
use mlakp_backend.RateLimit.Spec.{
  bucket_answers, answers, times_of, answers_to, IsOrdered, count_true, after, last_time,
}
use mlakp_backend.RateLimit.Refines.{asks, passes, allow_refines}
use mlakp_backend.RateLimit.Buckets.{
  IsSound, step-IsSound, live-IsSound, bucket_bound, bucket_retry,
}

allow-IsSound :
    (most earlier now : ℕ) (key other : Text) (l : RateLimiter)
    → l.max_requests ≡ pos (suc most)
    → earlier ≤ now
    → IsSound (suc most) l.window earlier (l.entries key)
    → IsSound (suc most) l.window now ((allow now other l).1.entries key)
allow-IsSound most earlier now key other l positive order v =
    let live = live-IsSound (suc most) l.window earlier now (l.entries key) order v in
    elim (Bool-cases (text_eq other key)) [
      | inl e ↦
          let same : key ≡ other = sym (text_eq_sound other key e) in
          let found =
            subst (λ k. IsSound (suc most) l.window now (keep_live now (l.entries k))) same live in
          let (head, tail, limit, window) =
            asks most now l positive other (keep_live now (l.entries other)) refl in
          subst (λ k. IsSound (suc most) l.window now ((allow now other l).1.entries k)) (sym same)
            (rw tail (step-IsSound most l.window now (keep_live now (l.entries other)) found))
      | inr e ↦ rw (passes most now l positive key other e) live
    ]

-- A limiter that has served requests in order since it was made.
record Served (most window : ℕ) (key : Text) (now : ℕ) (l : RateLimiter) : Type 0 where
  pub limit : l.max_requests ≡ pos (suc most)
  pub width : l.window ≡ window
  pub sound : IsSound (suc most) window now (l.entries key)

after-Served :
    (most window : ℕ) (key : Text) (now : ℕ) (l : RateLimiter) (requests : List (ℕ × Text))
    → Served most window key now l
    → IsOrdered now requests
    → Served most window key (last_time now requests) (after l requests)
unfolding after
after-Served most window key now l [] v h = v
after-Served most window key now l ((time, other) ∷ requests) v (first, later) =
    let (head, tail, limit, width) =
      asks most time l v.limit other (keep_live time (l.entries other)) refl in
    let sound =
      allow-IsSound most now time key other l v.limit first
        (subst (λ n. IsSound (suc most) n now (l.entries key)) (sym v.width) v.sound) in
    after-Served most window key time (allow time other l).1 requests
      (record {
        limit = limit ∙ v.limit;
        width = width ∙ v.width;
        sound =
            subst (λ n. IsSound (suc most) n time ((allow time other l).1.entries key)) v.width
              sound;
      })
      later

new-Served :
    (most : ℕ) (window : ℤ) (key : Text)
    → Served most (positive_window window) key 0 (new_rate_limiter (pos (suc most)) window)
unfolding new_rate_limiter
new-Served most window key = record { limit = refl; width = refl; sound = tt }

times_within :
    (P : ℕ → Type 0) (key : Text) (requests : List (ℕ × Text))
    → All (λ r. P r.0) requests
    → All P (times_of key requests)
unfolding times_of
times_within P key [] h = tt
times_within P key ((time, other) ∷ requests) (first, rest) =
    let later = times_within P key requests rest in
    elim (Bool-cases (text_eq other key)) [ inl e ↦ rw e (first, later) | inr e ↦ rw e later ]

times_of-append :
    (key : Text) (xs ys : List (ℕ × Text))
    → times_of key (xs ++ ys) ≡ times_of key xs ++ times_of key ys
unfolding times_of
times_of-append key [] ys = refl
times_of-append key ((time, other) ∷ xs) ys = elim (Bool-cases (text_eq other key)) [
  | inl e ↦ rw e (ap (λ ts. time ∷ ts) (times_of-append key xs ys))
  | inr e ↦ rw e (times_of-append key xs ys)
]

-- The times of a key that asks, waits while the others ask, and asks again.
two_times :
    (key : Text) (now retry : ℕ) (between : List (ℕ × Text))
    → times_of key between ≡ []
    → times_of key ((now, key) ∷ (between ++ ((retry, key) ∷ []))) ≡ now ∷ retry ∷ []
unfolding times_of
two_times key now retry between quiet =
    rw (text_eq_refl key, times_of-append key between ((retry, key) ∷ []), quiet, text_eq_refl key)
      refl

module _ (most : ℕ) (window : ℤ) (key : Text) (earlier : List (ℕ × Text))
    (ordered : IsOrdered 0 earlier) where
  -- The limiter that has served the earlier requests.
  abbrev limiter : RateLimiter
  limiter = after (new_rate_limiter (pos (suc most)) window) earlier

  served : Served most (positive_window window) key (last_time 0 earlier) limiter
  served =
      after-Served most (positive_window window) key 0 (new_rate_limiter (pos (suc most)) window)
        earlier (new-Served most window key) ordered

  -- A new limiter with a positive limit lets a key through at most twice its limit of times in any
  -- stretch of time as long as the window, whatever it has served before and between, where the
  -- clock does not go back.
  pub window_bound :
      (start : ℕ) (requests : List (ℕ × Text))
      → IsOrdered (last_time 0 earlier) requests
      → All (λ r. (start ≤ r.0) × (r.0 < start + positive_window window)) requests
      → count_true (answers_to key (answers limiter requests)) ≤ 2 * suc most
  window_bound start requests later within =
      let now = last_time 0 earlier in
      let bound =
        bucket_bound most (positive_window window) start now (limiter.entries key)
          (times_of key requests) served.sound
          (times_within (λ t. (start ≤ t) × (t < start + positive_window window)) key requests
            within) in
      let same = allow_refines most now key requests limiter served.limit later in
      rw (same, served.width) bound

  -- A client that was refused gets through again: if a key is refused at a time, asks nothing for the
  -- length of the window and then asks, it is let through, whatever other keys ask in between.
  pub retry_allowed :
      (now retry : ℕ) (between : List (ℕ × Text))
      → last_time 0 earlier ≤ now
      → IsOrdered now (between ++ ((retry, key) ∷ []))
      → times_of key between ≡ []
      → now + positive_window window ≤ retry
      → answers_to key (answers limiter ((now, key) ∷ [])) ≡ false ∷ []
      → answers_to key (answers limiter ((now, key) ∷ (between ++ ((retry, key) ∷ []))))
        ≡ false ∷ true ∷ []
  unfolding times_of
  retry_allowed now retry between order later quiet waited seen =
      let start = last_time 0 earlier in
      let requests = (now, key) ∷ (between ++ ((retry, key) ∷ [])) in
      let bucket = limiter.entries key in
      let one : times_of key ((now, key) ∷ []) ≡ now ∷ [] = rw (text_eq_refl key) refl in
      let refused : bucket_answers (suc most) limiter.window bucket (now ∷ []) ≡ false ∷ [] =
        ap (bucket_answers (suc most) limiter.window bucket) (sym one)
        ∙ sym (allow_refines most start key ((now, key) ∷ []) limiter served.limit (order, tt))
        ∙ seen in
      let again =
        bucket_retry most limiter.window start now retry bucket
          (subst (λ n. IsSound (suc most) n start bucket) (sym served.width) served.sound) order
          (subst (λ n. now + n ≤ retry) (sym served.width) waited) refused in
      allow_refines most start key requests limiter served.limit (order, later)
      ∙ ap (bucket_answers (suc most) limiter.window bucket) (two_times key now retry between quiet)
      ∙ again
