-- ===== src/Api/StreamHistory/Examples.antt =====
-- Tests and witnesses of the history of the threads.
use sarvam.Prelude.{ℕ, ◌≡◌, refl, none, List, [], ◌∷◌}
use sarvam.Api.StreamHistory.{
  Key, Op, read, write, lock, find_thread, history_get, history_set, apply_all, empty_memory,
  redis_history_get, redis_history_set,
}
use sarvam.Api.StreamHistory.Cache.{Bounded, memory-Bounded}

abbrev ann : Key
ann = ("ann", "t1")

abbrev bob : Key
bob = ("bob", "t1")

-- Two users with one thread id do not share a history.
separate : (history_get ℕ bob (history_set ℕ ann (1 ∷ 2 ∷ []) (empty_memory ℕ))).0 ≡ []
unfolding history_get history_set find_thread
separate = refl

expired : redis_history_get ℕ ann 3600 (redis_history_set ℕ ann (1 ∷ []) 0 (λ k. none)) ≡ []
unfolding redis_history_get redis_history_set
expired = refl

abbrev ops : List (Op ℕ)
ops = lock ann ∷ read ann ∷ write ann (1 ∷ []) ∷ write bob (2 ∷ []) ∷ read ann ∷ []

memory-Bounded_example : Bounded (apply_all ℕ ops (empty_memory ℕ))
memory-Bounded_example = memory-Bounded ops
