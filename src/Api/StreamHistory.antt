-- ===== src/Api/StreamHistory.antt =====
-- api/main.py: the history of the threads of /chat/stream, kept in memory or in Redis.
--
-- An `OrderedDict` is the list of its entries, the oldest first. The in-memory locks are the keys
-- that have one.
pub mod Entries
pub mod Cache
pub mod Stores
mod Examples
use sarvam.Prelude.{
  ℕ, ◌+◌, Bool, true, false, ◌&&◌, not, Option, none, some, List, [], ◌∷◌, ◌++◌, String, length,
  drop, keep, any, ltb, str_eq, if◌then◌else◌,
}

abbrev pub max_threads : ℕ
max_threads = 1000

abbrev pub history_ttl : ℕ
history_ttl = 3600

-- The user and the thread.
abbrev pub Key : Type 0
Key = String × String

abbrev pub key_eq : Key → Key → Bool
key_eq a b = str_eq a.0 b.0 && str_eq a.1 b.1

module _ (M : Type 0) where
  pub record Memory : Type 0 where
    pub threads : List (Key × List M)
    pub locks : List Key

  unfoldable pub find_thread : Key → List (Key × List M) → Option (List M)
  find_thread k [] = none
  find_thread k ((j, h) ∷ d) = if key_eq j k then some h else find_thread k d

  abbrev pub without : Key → List (Key × List M) → List (Key × List M)
  without k d = keep (λ e. not (key_eq e.0 k)) d

  -- `_stream_history_get`, in memory: an entry that is read is the newest.
  unfoldable pub history_get : Key → Memory → List M × Memory
  unfolding find_thread
  history_get k s = elim (find_thread k s.threads) [
    | none ↦ ([], s)
    | some h ↦ (h, record s { threads = without k s.threads ++ ((k, h) ∷ []) })
  ]

  -- `popitem(last=False)`, and the lock of its key.
  abbrev pub evict_from : List Key → List (Key × List M) → Memory
  evict_from locks [] = record { threads = []; locks = locks }
  evict_from locks (e ∷ d) = record { threads = d; locks = keep (λ j. not (key_eq j e.0)) locks }

  -- `_stream_history_set`, in memory.
  unfoldable pub history_set : Key → List M → Memory → Memory
  history_set k messages s =
      let threads = without k s.threads ++ ((k, messages) ∷ []) in
      if ltb max_threads (length threads)
      then evict_from s.locks threads
      else record s { threads = threads }

  -- `_stream_history_locks.setdefault(key, asyncio.Lock())`
  unfoldable pub take_lock : Key → Memory → Memory
  take_lock k s =
      if any (λ j. key_eq j k) s.locks then s else record s { locks = s.locks ++ (k ∷ []) }

  abbrev pub empty_memory : Memory
  empty_memory = record { threads = []; locks = [] }

  -- What a turn does with the memory.
  pub data Op : Type 0 where
    read : Key → Op
    write : Key → List M → Op
    lock : Key → Op

  unfoldable pub apply : Op → Memory → Memory
  apply (read k) s = (history_get k s).1
  apply (write k h) s = history_set k h s
  apply (lock k) s = take_lock k s

  unfoldable pub apply_all : List Op → Memory → Memory
  unfolding apply
  apply_all [] s = s
  apply_all (o ∷ os) s = apply_all os (apply o s)

  -- The Redis variant: a value with the time at which it expires. An entry that has expired is not
  -- read, and `now` is the server's clock.
  pub record Expiring : Type 0 where
    pub messages : List M
    pub expires_at : ℕ

  abbrev pub RedisMap : Type 0
  RedisMap = Key → Option Expiring

  unfoldable pub redis_history_get : Key → ℕ → RedisMap → List M
  redis_history_get k now r = elim (r k) [
    | none ↦ []
    | some e ↦ if ltb now e.expires_at then e.messages else []
  ]

  unfoldable pub redis_history_set : Key → List M → ℕ → RedisMap → RedisMap
  redis_history_set k h now r j =
      if key_eq j k then some (record { messages = h; expires_at = now + history_ttl }) else r j
