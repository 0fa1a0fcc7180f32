-- ===== src/Security/RateLimit/Shared.antt =====
-- security/rate_limit.py: `_allow_redis`, the limiter with its hits in sorted sets of Redis.
--
-- The sorted set of one key is the list of its scores: the members are unique, so that none is
-- overwritten. Each
-- command is a step of its own, because other requests may run between two of them. Redis drops a key
-- that has expired before it looks at it. Times are whole ticks; `now - window` is written with the
-- window on the other side.
use sarvam.Prelude.{
  ℕ, ◌+◌, ◌≤◌, ◌<◌, ◌≡◌, refl, Bool, true, false, List, [], ◌∷◌, ◌++◌, length, length-append,
  length-keep-le, keep, ltb, leb, arith, Bool-cases, inl, inr, if◌then◌else◌,
}

pub record SortedSet : Type 0 where
  pub scores : List ℕ
  pub expires_at : ℕ

unfoldable pub unexpired : ℕ → SortedSet → List ℕ
unexpired now z = if ltb now z.expires_at then z.scores else []

-- `zremrangebyscore(key, "-inf", now - window)`
unfoldable pub zremrangebyscore : ℕ → ℕ → SortedSet → SortedSet
unfolding unexpired
zremrangebyscore window now z = record z {
  scores = keep (λ s. ltb now (s + window)) (unexpired now z);
}

unfoldable pub zcard : ℕ → SortedSet → ℕ
unfolding unexpired
zcard now z = length (unexpired now z)

-- `zadd` of a unique member, and `expire`.
unfoldable pub zadd : ℕ → ℕ → SortedSet → SortedSet
unfolding unexpired
zadd window now z = record {
  scores = unexpired now z ++ (now ∷ []);
  expires_at = now + (window + 1);
}

-- One request without another one in between.
unfoldable pub allow_redis : ℕ → ℕ → ℕ → SortedSet → SortedSet × Bool
unfolding zremrangebyscore zcard zadd
allow_redis max_requests window now z =
    let swept = zremrangebyscore window now z in
    if leb max_requests (zcard now swept) then (swept, false) else (zadd window now swept, true)

length-unexpired : (now : ℕ) (z : SortedSet) → length (unexpired now z) ≤ length z.scores
unfolding unexpired
length-unexpired now z = ground arith

length-swept :
    (window now : ℕ) (z : SortedSet)
    → length (zremrangebyscore window now z).scores ≤ length z.scores
unfolding zremrangebyscore
length-swept window now z =
    omega
      (arith, length-keep-le (λ s. ltb now (s + window)) (unexpired now z), length-unexpired now z)

length-zadd : (window now : ℕ) (z : SortedSet) → length (zadd window now z).scores ≡ zcard now z + 1
unfolding zadd zcard
length-zadd window now z = omega (arith, length-append (unexpired now z) (now ∷ []))

allow_full :
    (max_requests window now : ℕ) (z : SortedSet)
    → leb max_requests (zcard now (zremrangebyscore window now z)) ≡ true
    → allow_redis max_requests window now z ≡ (zremrangebyscore window now z, false)
unfolding allow_redis
allow_full max_requests window now z full = rw (full, allow_redis) refl

allow_room :
    (max_requests window now : ℕ) (z : SortedSet)
    → leb max_requests (zcard now (zremrangebyscore window now z)) ≡ false
    → allow_redis max_requests window now z
      ≡ (zadd window now (zremrangebyscore window now z), true)
unfolding allow_redis
allow_room max_requests window now z room = rw (room, allow_redis) refl

less : (a b : ℕ) → leb a b ≡ false → b < a
less a b h = ground arith

-- Requests that come one after the other leave at most as many hits as are allowed.
pub allow_redis-bound :
    (max_requests window now : ℕ) (z : SortedSet)
    → length z.scores ≤ max_requests
    → length (allow_redis max_requests window now z).0.scores ≤ max_requests
allow_redis-bound max_requests window now z few =
    let swept = zremrangebyscore window now z in
    elim (Bool-cases (leb max_requests (zcard now swept))) [
      | inl full ↦
          rw (allow_full max_requests window now z full)
            (omega (arith, length-swept window now z, few))
      | inr room ↦
          rw (allow_room max_requests window now z room)
            (omega (arith, length-zadd window now swept, less max_requests (zcard now swept) room))
    ]
