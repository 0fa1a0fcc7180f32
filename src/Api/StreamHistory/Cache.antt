-- ===== src/Api/StreamHistory/Cache.antt =====
-- api/main.py: the bound of the in-memory history, and what it remembers.
use sarvam.Prelude.{
  ℕ, ◌+◌, ◌≤◌, ◌<◌, ◌≡◌, inl, inr, refl, Bool, true, false, not, Option, none, some, List, [], ◌∷◌,
  ◌++◌, length, length-append, length-keep-le, any, ltb, arith, ◌∙◌, Bool-cases, Option-cases,
  if◌then◌else◌,
}
use sarvam.Api.StreamHistory.{
  max_threads, Key, key_eq, Memory, find_thread, without, history_get, evict_from, history_set,
  take_lock, empty_memory, Op, read, write, lock, apply, apply_all, Expiring, RedisMap,
  redis_history_get, redis_history_set, history_ttl,
}
use sarvam.Api.StreamHistory.Entries.{
  key_eq_refl, Distinct, nil, cons, find_thread-without, find_thread-append, find_thread-push,
  without-Distinct, push-Distinct, missing,
}

module _ {M : Type 0} where
  newest-Distinct :
      (k : Key) (h : List M) (d : List (Key × List M))
      → Distinct d
      → Distinct (without M k d ++ ((k, h) ∷ []))
  newest-Distinct k h d x = push-Distinct k h (without M k d) (without-Distinct k d x) (missing k d)

  -- Without an entry that is there, a list is shorter.
  length-without :
      (k : Key) (d : List (Key × List M)) (h : List M)
      → find_thread M k d ≡ some h
      → length (without M k d) < length d
  unfolding find_thread
  length-without k [] h p = cc
  length-without k ((i, g) ∷ d) h p = elim (Bool-cases (key_eq i k)) [
    | inl hit ↦ rw hit (omega (arith, length-keep-le (λ e. not (key_eq e.0 k)) d))
    | inr miss ↦ rw miss (omega (arith, length-without k d h (rw miss at p)))
  ]

  -- At most 1000 threads, each with one entry.
  pub record Bounded (s : Memory M) : Type 0 where
    pub few : length s.threads ≤ 1000
    pub distinct : Distinct s.threads

  history_get-Bounded : (k : Key) (s : Memory M) → Bounded s → Bounded (history_get M k s).1
  unfolding history_get
  history_get-Bounded k s b = elim (Option-cases (find_thread M k s.threads)) [
    | inl e ↦ rw (e, history_get) b
    | inr (h, e) ↦
        rw (e, history_get)
          (record {
            few = omega (
              arith,
              b.few,
              length-append (without M k s.threads) ((k, h) ∷ []),
              length-without k s.threads h e,
            );
            distinct = newest-Distinct k h s.threads b.distinct;
          })
  ]

  evict-Bounded :
      (l : List Key) (d : List (Key × List M))
      → length d ≤ 1001
      → Distinct d
      → Bounded (evict_from M l d)
  evict-Bounded l [] few x = record { few = omega arith; distinct = nil }
  evict-Bounded l (e ∷ d) few (cons _ p x) = record { few = omega arith; distinct = x }

  history_set-Bounded :
      (k : Key) (h : List M) (s : Memory M) → Bounded s → Bounded (history_set M k h s)
  unfolding history_set
  history_set-Bounded k h s b =
      let pushed = newest-Distinct k h s.threads b.distinct in
      let size = length-append (without M k s.threads) ((k, h) ∷ []) in
      let less = length-keep-le (λ e. not (key_eq e.0 k)) s.threads in
      elim (Bool-cases (ltb max_threads (length (without M k s.threads ++ ((k, h) ∷ []))))) [
        | inl full ↦ rw full (evict-Bounded s.locks _ (omega (arith, b.few)) pushed)
        | inr room ↦ rw room (record { few = ground arith; distinct = pushed })
      ]

  take_lock-Bounded : (k : Key) (s : Memory M) → Bounded s → Bounded (take_lock M k s)
  unfolding take_lock
  take_lock-Bounded k s b = elim (Bool-cases (any (λ j. key_eq j k) s.locks)) [
    | inl e ↦ rw e b
    | inr e ↦ rw e (record { few = b.few; distinct = b.distinct })
  ]

  apply_all-Bounded : (os : List (Op M)) (s : Memory M) → Bounded s → Bounded (apply_all M os s)
  unfolding apply_all apply
  apply_all-Bounded [] s b = b
  apply_all-Bounded (read k ∷ os) s b = apply_all-Bounded os _ (history_get-Bounded k s b)
  apply_all-Bounded (write k h ∷ os) s b = apply_all-Bounded os _ (history_set-Bounded k h s b)
  apply_all-Bounded (lock k ∷ os) s b = apply_all-Bounded os _ (take_lock-Bounded k s b)

  -- Whatever the turns of a process read and write, and in whatever order, its memory holds at most
  -- 1000 threads, and each of them once.
  pub memory-Bounded : (os : List (Op M)) → Bounded (apply_all M os (empty_memory M))
  memory-Bounded os =
      apply_all-Bounded os (empty_memory M) (record { few = omega arith; distinct = nil })

  find_thread-last :
      (k : Key) (h : List M) (d : List (Key × List M))
      → find_thread M k d ≡ none
      → find_thread M k (d ++ ((k, h) ∷ [])) ≡ some h
  unfolding find_thread
  find_thread-last k h d p = find_thread-append k d ((k, h) ∷ []) p ∙ rw (key_eq_refl k) refl

  find_thread-tail :
      (k : Key) (e : Key × List M) (d : List (Key × List M))
      → find_thread M k (e ∷ d) ≡ none
      → find_thread M k d ≡ none
  unfolding find_thread
  find_thread-tail k (i, g) d p = elim (Bool-cases (key_eq i k)) [
    | inl hit ↦ absurd (cc (rw hit at p))
    | inr miss ↦ rw miss at p
  ]

  evict-last :
      (k : Key) (h : List M) (l : List Key) (d : List (Key × List M))
      → find_thread M k d ≡ none
      → 1 ≤ length d
      → find_thread M k (evict_from M l (d ++ ((k, h) ∷ []))).threads ≡ some h
  evict-last k h l [] p n = absurd (omega arith)
  evict-last k h l (e ∷ d) p n = find_thread-last k h d (find_thread-tail k e d p)

  history_set-finds :
      (k : Key) (h : List M) (s : Memory M) → find_thread M k (history_set M k h s).threads ≡ some h
  unfolding history_set
  history_set-finds k h s =
      let size = length-append (without M k s.threads) ((k, h) ∷ []) in
      elim (Bool-cases (ltb max_threads (length (without M k s.threads ++ ((k, h) ∷ []))))) [
        | inl full ↦
            rw full
              (evict-last k h s.locks (without M k s.threads) (missing k s.threads) (ground arith))
        | inr room ↦ rw room (find_thread-last k h (without M k s.threads) (missing k s.threads))
      ]

  history_get-found :
      (k : Key) (h : List M) (s : Memory M)
      → find_thread M k s.threads ≡ some h
      → (history_get M k s).0 ≡ h
  unfolding history_get
  history_get-found k h s e = rw (e, history_get) refl

  history_set-others :
      (k j : Key) (h : List M) (s : Memory M)
      → key_eq k j ≡ false
      → length s.threads < 1000
      → find_thread M j (history_set M k h s).threads ≡ find_thread M j s.threads
  unfolding history_set
  history_set-others k j h s apart few =
      let size = length-append (without M k s.threads) ((k, h) ∷ []) in
      let less = length-keep-le (λ e. not (key_eq e.0 k)) s.threads in
      let room : ltb max_threads (length (without M k s.threads ++ ((k, h) ∷ []))) ≡ false =
        ground arith in
      rw room (
        find_thread-push j k (without M k s.threads) h apart
        ∙ find_thread-without k j s.threads
        ∙ rw apart refl)

  -- What a turn writes is what the next turn of the thread reads, also when another thread had to go
  -- for it; and while there is room, every other thread keeps its history.
  pub history_set-remembers :
      (k j : Key) (h : List M) (s : Memory M)
      → ((history_get M k (history_set M k h s)).0 ≡ h)
        × (key_eq k j ≡ false
            → length s.threads < 1000
            → find_thread M j (history_set M k h s).threads ≡ find_thread M j s.threads)
  history_set-remembers k j h s = (
    history_get-found k h (history_set M k h s) (history_set-finds k h s),
    history_set-others k j h s,
  )

  pub history_set-reads :
      (k : Key) (h : List M) (s : Memory M) → (history_get M k (history_set M k h s)).0 ≡ h
  history_set-reads k h s = history_get-found k h (history_set M k h s) (history_set-finds k h s)

  redis_set-at :
      (now : ℕ) (k : Key) (h : List M) (r : RedisMap M)
      → redis_history_set M k h now r k
        ≡ some (record { messages = h; expires_at = now + history_ttl })
  unfolding redis_history_set
  redis_set-at now k h r = either (key_eq k k) _ _ (key_eq_refl k)
    where
      either : (b : Bool) (x y : Option (Expiring M)) → b ≡ true → (if b then x else y) ≡ x
      either b x y e = rw e refl

  redis_get-alive :
      (now : ℕ) (k : Key) (r : RedisMap M) (e : Expiring M)
      → r k ≡ some e
      → ltb now e.expires_at ≡ true
      → redis_history_get M k now r ≡ e.messages
  unfolding redis_history_get
  redis_get-alive now k r e p alive = rw (p, alive, redis_history_get) refl

  -- The same of Redis, within the time to live.
  pub redis_set-reads :
      (now : ℕ) (k : Key) (h : List M) (r : RedisMap M)
      → redis_history_get M k now (redis_history_set M k h now r) ≡ h
  redis_set-reads now k h r =
      redis_get-alive now k (redis_history_set M k h now r)
        (record { messages = h; expires_at = now + history_ttl }) (redis_set-at now k h r)
        (ground arith)
