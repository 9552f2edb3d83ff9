-- ===== src/RateLimit/Spec.antt =====
-- One client by itself: a bucket that counts its requests since the first one of a window, without
-- the other clients and without the clean-up.
use mlakp_backend.Base.{
  ℕ, suc, ◌+◌, Bool, true, false, not, Option, none, some, List, [], ◌∷◌, ltb, leb, ◌≤◌,
  if◌then◌else◌,
}
use mlakp_backend.Text.{Text, text_eq}
use mlakp_backend.RateLimit.{Entry, RateLimiter, allow}

abbrev pub bucket_step : ℕ → ℕ → ℕ → Option Entry → Bool × Option Entry
bucket_step most window now none = (true, some (record { count = 1; reset_at = now + window }))
bucket_step most window now (some e) =
    if not (ltb now e.reset_at)
    then (true, some (record { count = 1; reset_at = now + window }))
    else if leb most e.count
    then (false, some e)
    else (true, some (record e { count = suc e.count }))

-- The answers to requests at the given times.
unfoldable pub bucket_answers : ℕ → ℕ → Option Entry → List ℕ → List Bool
bucket_answers most window bucket [] = []
bucket_answers most window bucket (now ∷ times) =
    let (answer, next) = bucket_step most window now bucket in
    answer ∷ bucket_answers most window next times

-- The limiter's answers to a sequence of requests, each a time and a key.
unfoldable pub answers : RateLimiter → List (ℕ × Text) → List (Text × Bool)
answers l [] = []
answers l ((now, key) ∷ requests) =
    let (answer, l') = allow now key l in (key, answer) ∷ answers l' requests

unfoldable pub times_of : Text → List (ℕ × Text) → List ℕ
times_of key [] = []
times_of key ((now, other) ∷ requests) =
    let rest = times_of key requests in if text_eq other key then now ∷ rest else rest

unfoldable pub answers_to : Text → List (Text × Bool) → List Bool
answers_to key [] = []
answers_to key ((other, answer) ∷ rest) =
    let later = answers_to key rest in if text_eq other key then answer ∷ later else later

-- The clock does not go back: no time is before `now`, nor before the one ahead of it.
abbrev pub IsOrdered : ℕ → List (ℕ × Text) → Type 0
IsOrdered now [] = Unit
IsOrdered now ((time, key) ∷ requests) = (now ≤ time) × IsOrdered time requests

unfoldable pub count_true : List Bool → ℕ
count_true [] = 0
count_true (b ∷ bs) = (if b then 1 else 0) + count_true bs

-- The limiter after a sequence of requests.
unfoldable pub after : RateLimiter → List (ℕ × Text) → RateLimiter
after l [] = l
after l ((now, key) ∷ requests) = after (allow now key l).1 requests

-- The time of the last request.
abbrev pub last_time : ℕ → List (ℕ × Text) → ℕ
last_time now [] = now
last_time now ((time, key) ∷ requests) = last_time time requests
