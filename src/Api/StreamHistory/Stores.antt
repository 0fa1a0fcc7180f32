-- ===== src/Api/StreamHistory/Stores.antt =====
-- api/main.py: the two stores of the histories behind one interface.
use sarvam.Prelude.{ℕ, ◌≡◌, List}
use sarvam.Api.StreamHistory.{
  Key, Memory, history_get, history_set, RedisMap, redis_history_get, redis_history_set,
}
use sarvam.Api.StreamHistory.Cache.{history_set-reads, redis_set-reads}

-- A store of the threads' histories: what was set is what is got.
pub record HistoryStore (M : Type 0) : Type 1 where
  pub Store : Type 0
  pub get : Key → Store → List M × Store
  pub set : Key → List M → Store → Store
  pub remembers : (k : Key) (h : List M) (s : Store) → (get k (set k h s)).0 ≡ h

abbrev pub in_memory : (M : Type 0) → HistoryStore M
in_memory M = record {
  Store = Memory M;
  get = history_get M;
  set = history_set M;
  remembers = history_set-reads;
}

-- Redis at one time of its clock.
abbrev pub in_redis : (M : Type 0) → ℕ → HistoryStore M
in_redis M now = record {
  Store = RedisMap M;
  get = λ k r. (redis_history_get M k now r, r);
  set = λ k h r. redis_history_set M k h now r;
  remembers = redis_set-reads now;
}
