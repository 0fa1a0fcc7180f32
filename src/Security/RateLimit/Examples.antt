-- ===== src/Security/RateLimit/Examples.antt =====
-- Witnesses and tests of the limiter.
use sarvam.Prelude.{ℕ, ◌≤◌, ◌≡◌, refl, false, List, [], ◌∷◌, String, arith, lookup, insert, remove}
use sarvam.Security.RateLimit.{Limiter, allow_in_memory}
use sarvam.Security.RateLimit.Shared.{
  SortedSet, unexpired, zremrangebyscore, zcard, zadd, allow_redis,
}
use sarvam.Security.RateLimit.Window.{serve, in_window}
use sarvam.Security.RateLimit.Limit.{window_limit}

abbrev two_in_ten : Limiter
two_in_ten = record { max_requests = 2; window = 10; hits = [] }

abbrev calls : List (String × ℕ)
calls = ("a", 1) ∷ ("a", 2) ∷ ("b", 3) ∷ ("a", 4) ∷ ("a", 12) ∷ ("a", 20) ∷ []

-- The third request of `a` is refused, and one that comes after the window is admitted.
admitted_a : (serve calls two_in_ten (λ _. [])).1 "a" ≡ 1 ∷ 2 ∷ 12 ∷ 20 ∷ []
unfolding serve allow_in_memory lookup insert remove
admitted_a = refl

window_limit_example : in_window 10 12 ((serve calls two_in_ten (λ _. [])).1 "a") ≤ 2
window_limit_example = window_limit two_in_ten calls "a" 12 refl (omega arith)

abbrev no_hits : SortedSet
no_hits = record { scores = []; expires_at = 0 }

one_after_the_other : (allow_redis 1 10 5 (allow_redis 1 10 5 no_hits).0).1 ≡ false
unfolding allow_redis zremrangebyscore zcard zadd unexpired
one_after_the_other = refl

-- Both requests count before one of them adds: with a limit of 1 both are admitted.
both_counted : zcard 5 (zremrangebyscore 10 5 (zremrangebyscore 10 5 no_hits)) ≡ 0
unfolding zcard zremrangebyscore unexpired
both_counted = refl

both_added :
    zcard 5 (zadd 10 5 (zadd 10 5 (zremrangebyscore 10 5 (zremrangebyscore 10 5 no_hits)))) ≡ 2
unfolding zcard zremrangebyscore zadd unexpired
both_added = refl
