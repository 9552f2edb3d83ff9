-- ===== src/RateLimit/Tests.antt =====
-- A limiter that lets two requests through in a window.
use mlakp_backend.Base.{◌≡◌, refl, ℕ, ◌≤◌, ◌*◌, true, false, List, [], ◌∷◌, pos, arith}
use mlakp_backend.Text.{Text, lit, text_eq}
use mlakp_backend.RateLimit.{RateLimiter, new_rate_limiter, allow, cleanup_expired, put}
use mlakp_backend.RateLimit.Spec.{answers, answers_to, bucket_answers, times_of, count_true, after}
use mlakp_backend.RateLimit.Refines.{allow_refines}
use mlakp_backend.RateLimit.Bounds.{window_bound, retry_allowed}

abbrev two : RateLimiter
two = new_rate_limiter (pos 2) (pos 100)

abbrev busy : List (ℕ × Text)
busy = (1, lit "a") ∷ (2, lit "b") ∷ (3, lit "a") ∷ (4, lit "a") ∷ (150, lit "a") ∷ []

busy-answers : answers_to (lit "a") (answers two busy) ≡ true ∷ true ∷ false ∷ true ∷ []
unfolding answers answers_to new_rate_limiter allow cleanup_expired put text_eq
busy-answers = refl

allow_refines_example :
    answers_to (lit "a") (answers two busy)
    ≡ bucket_answers 2 two.window (two.entries (lit "a")) (times_of (lit "a") busy)
unfolding new_rate_limiter
allow_refines_example =
    allow_refines 1 0 (lit "a") busy two refl
      (omega arith, (omega arith, (omega arith, (omega arith, (omega arith, tt)))))

window_bound_example :
    count_true (
      answers_to
        (lit "a")
        (answers (after two ((1, lit "a") ∷ [])) ((2, lit "a") ∷ (3, lit "b") ∷ [])))
    ≤ 2 * 2
window_bound_example =
    window_bound 1 (pos 100) (lit "a") ((1, lit "a") ∷ []) (omega arith, tt) 1
      ((2, lit "a") ∷ (3, lit "b") ∷ []) (omega arith, (omega arith, tt))
      ((omega arith, omega arith), ((omega arith, omega arith), tt))

abbrev used_up : RateLimiter
used_up = after two ((1, lit "a") ∷ (2, lit "a") ∷ [])

retry_allowed_example :
    answers_to (lit "a") (answers used_up ((3, lit "a") ∷ (5, lit "b") ∷ (103, lit "a") ∷ []))
    ≡ false ∷ true ∷ []
unfolding answers answers_to new_rate_limiter allow cleanup_expired put text_eq after times_of
retry_allowed_example =
    retry_allowed 1 (pos 100) (lit "a") ((1, lit "a") ∷ (2, lit "a") ∷ [])
      (omega arith, (omega arith, tt)) 3 103 ((5, lit "b") ∷ []) (omega arith)
      (omega arith, (omega arith, tt)) refl (omega arith) refl
