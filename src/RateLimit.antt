-- ===== src/RateLimit.antt =====
-- internal/httpapi/middleware/rate_limit.go: the rate limiter of the routes for authentication. Times
-- and durations are numbers of nanoseconds, the clock's readings are arguments, and the mutex makes
-- one call of `allow` run after another. The map of entries is a function. `split_host_port` is
-- `net.SplitHostPort` of Go's library: the host, or nothing for an error.
pub mod Spec
pub mod Refines
pub mod Buckets
pub mod Bounds
mod Tests
use mlakp_backend.Base.{
  ℕ, suc, ◌+◌, ◌*◌, ◌/◌, ◌^◌, Bool, true, false, not, ◌||◌, Option, none, some, List, [], ◌∷◌, ◌++◌,
  ltb, leb, if◌then◌else◌, ℤ, pos, negsuc,
}
use mlakp_backend.Text.{Text, text_eq, lit}

-- `rateLimitEntry`
pub record Entry : Type 0 where
  pub count : ℕ
  pub reset_at : ℕ

-- `RateLimiter`, its clock and its mutex left out.
pub record RateLimiter : Type 0 where
  pub max_requests : ℤ
  pub window : ℕ
  pub entries : Text → Option Entry

abbrev pub second : ℕ
second = 1000000000

abbrev pub minute : ℕ
minute = 60 * second

-- `if window <= 0 { window = time.Minute }`
abbrev pub positive_window : ℤ → ℕ
positive_window (pos ℕ.zero) = minute
positive_window (pos (suc n)) = suc n
positive_window (negsuc n) = minute

-- `NewRateLimiter`
unfoldable pub new_rate_limiter : ℤ → ℤ → RateLimiter
new_rate_limiter max_requests window = record {
  max_requests = max_requests;
  window = positive_window window;
  entries = λ key. none;
}

-- `l.maxRequests <= 0`
abbrev pub denies_all : ℤ → Bool
denies_all (pos ℕ.zero) = true
denies_all (pos (suc n)) = false
denies_all (negsuc n) = true

-- `entry.count >= l.maxRequests`
abbrev pub is_used_up : ℤ → ℕ → Bool
is_used_up (pos n) count = leb n count
is_used_up (negsuc n) count = true

abbrev pub keep_live : ℕ → Option Entry → Option Entry
keep_live now none = none
keep_live now (some e) = if not (ltb now e.reset_at) then none else some e

-- `cleanupExpired`
unfoldable pub cleanup_expired : ℕ → (Text → Option Entry) → Text → Option Entry
cleanup_expired now entries key = keep_live now (entries key)

-- `l.entries[key] = entry`
unfoldable pub put : Text → Entry → (Text → Option Entry) → Text → Option Entry
put key e entries other = if text_eq key other then some e else entries other

-- The new bucket of a key.
abbrev pub open_bucket : ℕ → Text → RateLimiter → Bool × RateLimiter
open_bucket now key l = (
  true,
  record l { entries = put key (record { count = 1; reset_at = now + l.window }) l.entries },
)

abbrev pub count_request : ℕ → Text → RateLimiter → Option Entry → Bool × RateLimiter
count_request now key l none = open_bucket now key l
count_request now key l (some e) =
    if not (ltb now e.reset_at)
    then open_bucket now key l
    else if is_used_up l.max_requests e.count
    then (false, l)
    else (true, record l { entries = put key (record e { count = suc e.count }) l.entries })

-- `allow`
unfoldable pub allow : ℕ → Text → RateLimiter → Bool × RateLimiter
allow now key l =
    if denies_all l.max_requests
    then (false, l)
    else (let cleaned = cleanup_expired now l.entries in
        count_request now key (record l { entries = cleaned }) (cleaned key))

-- What the middleware reads of a request.
pub record Request : Type 0 where
  pub method : Text
  pub path : Text
  pub remote_addr : Text

-- The next handler, or a response with status 429 and the seconds of `Retry-After`.
pub data Answer : Type 0 where
  served : Answer
  rate_limited : ℕ → Answer

module _ (split_host_port : Text → Option Text) where
  -- `rateLimitKey`
  unfoldable pub rate_limit_key : Request → Text
  rate_limit_key r =
      r.method
      ++ (lit " "
          ++ (r.path
              ++ (lit " " ++ elim (split_host_port r.remote_addr) [
                | none ↦ r.remote_addr
                | some host ↦ host
              ])))

  -- `Limit`; a missing limiter lets every request through.
  unfoldable pub limit : ℕ → Request → Option RateLimiter → Answer × Option RateLimiter
  limit now r none = (served, none)
  limit now r (some l) =
      let (allowed, l') = allow now (rate_limit_key r) l in
      (if allowed then served else rate_limited (l.window / second), some l')
