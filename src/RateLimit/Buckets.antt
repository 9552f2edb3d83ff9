-- ===== src/RateLimit/Buckets.antt =====
-- One bucket: what it keeps, how many requests it lets through, and when it does again.
use mlakp_backend.Base.{
  ◌≡◌, refl, ℕ, suc, ◌+◌, ◌*◌, ◌≤◌, ◌<◌, true, false, Option, none, some, List, [], ◌∷◌, ltb, leb,
  Bool-cases, inl, inr, arith, All, All-map,
}
use mlakp_backend.RateLimit.{Entry, keep_live}
use mlakp_backend.RateLimit.Spec.{bucket_step, bucket_answers, count_true}

-- The count of a bucket is within the limit, and it expires within a window from now.
abbrev pub IsSound : ℕ → ℕ → ℕ → Option Entry → Type 0
IsSound most window now none = Unit
IsSound most window now (some e) = (e.count ≤ most) × (e.reset_at ≤ now + window)

pub step-IsSound :
    (most window now : ℕ) (bucket : Option Entry)
    → IsSound (suc most) window now bucket
    → IsSound (suc most) window now (bucket_step (suc most) window now bucket).1
step-IsSound most window now none h = (omega arith, omega arith)
step-IsSound most window now (some e) (low, soon) = elim (Bool-cases (ltb now e.reset_at)) [
  | inr a ↦ rw a (omega arith, omega arith)
  | inl a ↦ elim (Bool-cases (leb (suc most) e.count)) [
    | inl b ↦ rw (a, b) (low, soon)
    | inr b ↦ rw (a, b) (ground arith, soon)
  ]
]

pub live-IsSound :
    (most window earlier now : ℕ) (bucket : Option Entry)
    → earlier ≤ now
    → IsSound most window earlier bucket
    → IsSound most window now (keep_live now bucket)
live-IsSound most window earlier now none h v = tt
live-IsSound most window earlier now (some e) h (low, soon) =
    elim (Bool-cases (ltb now e.reset_at)) [
      | inr a ↦ rw a tt
      | inl a ↦ rw a (low, omega (arith, h, soon))
    ]

-- Before a bucket expires, it lets through what is left of its limit.
bucket_rest :
    (most window : ℕ) (e : Entry) (times : List ℕ)
    → e.count ≤ most
    → All (λ t. t < e.reset_at) times
    → count_true (bucket_answers most window (some e) times) + e.count ≤ most
unfolding bucket_answers count_true
bucket_rest most window e [] low h = omega (arith, low)
bucket_rest most window e (t ∷ times) low (first, rest) =
    let early : ltb t e.reset_at ≡ true = ground (arith, first) in
    elim (Bool-cases (leb most e.count)) [
      | inl a ↦
          let same = bucket_rest most window e times low rest in rw (early, a) (omega (arith, same))
      | inr a ↦
          let next =
            bucket_rest most window (record e { count = suc e.count }) times (ground arith) rest in
          rw (early, a) (omega (arith, next))
    ]

bucket_twice :
    (most window start now : ℕ) (e : Entry) (times : List ℕ)
    → e.count ≤ suc most
    → All (λ t. (start ≤ t) × (t < start + window)) times
    → count_true (bucket_answers (suc most) window (some e) times) + e.count ≤ 2 * suc most
unfolding bucket_answers count_true
bucket_twice most window start now e [] low h = omega (arith, low)
bucket_twice most window start now e (t ∷ times) low ((from, to), rest) =
    elim (Bool-cases (ltb t e.reset_at)) [
      | inl early ↦ elim (Bool-cases (leb (suc most) e.count)) [
        | inl a ↦
            let same = bucket_twice most window start now e times low rest in
            rw (early, a) (omega (arith, same))
        | inr a ↦
            let next =
              bucket_twice most window start now (record e { count = suc e.count }) times
                (ground arith) rest in
            rw (early, a) (omega (arith, next))
      ]
      | inr late ↦
          let fresh : Entry = record { count = 1; reset_at = t + window } in
          let next = bucket_rest (suc most) window fresh times (omega arith) (
            All-map (λ u. (start ≤ u) × (u < start + window)) (λ u. u < t + window) times
              (λ u (a, b). omega (arith, b, from)) rest) in
          rw late (omega (arith, next, low))
    ]

pub bucket_bound :
    (most window start now : ℕ) (bucket : Option Entry) (times : List ℕ)
    → IsSound (suc most) window now bucket
    → All (λ t. (start ≤ t) × (t < start + window)) times
    → count_true (bucket_answers (suc most) window bucket times) ≤ 2 * suc most
unfolding bucket_answers count_true
bucket_bound most window start now none [] v h = omega arith
bucket_bound most window start now none (t ∷ times) v ((from, to), rest) =
    let fresh : Entry = record { count = 1; reset_at = t + window } in
    let next = bucket_rest (suc most) window fresh times (omega arith) (
      All-map (λ u. (start ≤ u) × (u < start + window)) (λ u. u < t + window) times
        (λ u (a, b). omega (arith, b, from)) rest) in
    omega (arith, next)
bucket_bound most window start now (some e) times (low, soon) h =
    let twice = bucket_twice most window start now e times low h in omega (arith, twice)

pub bucket_retry :
    (most window earlier now retry : ℕ) (bucket : Option Entry)
    → IsSound (suc most) window earlier bucket
    → earlier ≤ now
    → now + window ≤ retry
    → bucket_answers (suc most) window bucket (now ∷ []) ≡ false ∷ []
    → bucket_answers (suc most) window bucket (now ∷ retry ∷ []) ≡ false ∷ true ∷ []
unfolding bucket_answers
bucket_retry most window earlier now retry none v order waited seen = absurd (cc)
bucket_retry most window earlier now retry (some e) (low, soon) order waited seen =
    let expired : ltb retry e.reset_at ≡ false = ground (arith, soon, order, waited) in
    elim (Bool-cases (ltb now e.reset_at)) [
      | inr a ↦ let no = rw a at seen in absurd (cc)
      | inl a ↦ elim (Bool-cases (leb (suc most) e.count)) [
        | inl b ↦ rw (a, b, expired) refl
        | inr b ↦ let no = rw (a, b) at seen in absurd (cc)
      ]
    ]
