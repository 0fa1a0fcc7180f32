-- ===== src/Security/RateLimit.antt =====
-- security/rate_limit.py: the sliding-window limiter, with its in-memory store.
--
-- Times are whole ticks of the monotonic clock. `hits[0] < now - window` is written with the window
-- on the other side, since `-` stops at 0 here.
pub mod Shared
pub mod Window
pub mod Limit
mod Examples
use sarvam.Prelude.{
  ℕ, ◌+◌, Bool, true, false, Option, none, some, List, [], ◌∷◌, ◌++◌, String, Dict, lookup, insert,
  remove, length, ltb, leb, str_eq, if◌then◌else◌, is_empty,
}

pub record Limiter : Type 0 where
  pub max_requests : ℕ
  pub window : ℕ
  pub hits : Dict (List ℕ)

-- `self._hits[key]` of a `defaultdict(deque)`
unfoldable pub hits_of : String → Dict (List ℕ) → List ℕ
hits_of key d = elim (lookup key d) [ none ↦ [] | some hs ↦ hs ]

-- `while hits and hits[0] < cutoff: hits.popleft()`
unfoldable pub drop_old : ℕ → ℕ → List ℕ → List ℕ
drop_old window now [] = []
drop_old window now (h ∷ hs) =
    let rest = drop_old window now hs in if ltb (h + window) now then rest else h ∷ hs

-- The deque is changed in place; an empty one is taken out of the dictionary.
unfoldable pub sweep : ℕ → String → Limiter → Limiter
unfolding hits_of drop_old
sweep now key l =
    let hs = drop_old l.window now (hits_of key l.hits) in
    let d = insert key hs l.hits in record l { hits = if is_empty hs then remove key d else d }

unfoldable pub allow_in_memory : String → ℕ → Limiter → Limiter × Bool
unfolding sweep
allow_in_memory key now l =
    let hs = drop_old l.window now (hits_of key l.hits) in
    let l' = sweep now key l in
    if leb l.max_requests (length hs)
    then (l', false)
    else (record l' { hits = insert key (hs ++ now ∷ []) l'.hits }, true)
