-- ===== src/Gateway/FailurePolicy/Backoff.antt =====
-- The retries of the speech recognition end, stay within the backoff, and never drop an utterance.
use sarvam.Prelude.{
  ℕ, zero, suc, ◌+◌, ◌-◌, ◌*◌, ◌≤◌, ◌<◌, ◌≡◌, ◌⊎◌, inl, inr, refl, Bool, true, false, Option, none,
  some, List, [], ◌∷◌, ◌++◌, map, Text, ltb, leb, min, max, leb-false→lt, arith, Bool-cases,
  Option-cases,
}
use sarvam.Gateway.FailurePolicy.{
  Heard, event, via_rest, failed, RestResult, Run, fall_back, before, stt_loop,
  stt_stream_with_backoff_then_rest,
}

pub total : List ℕ → ℕ
total [] = 0
total (n ∷ ns) = n + total ns

-- Is the last event one of the fallback, its result or its error?
pub ends_in_fallback : {E : Type 0} → List (Heard E) → Bool
ends_in_fallback [] = false
ends_in_fallback (event x ∷ []) = false
ends_in_fallback (via_rest x e ∷ []) = true
ends_in_fallback (failed e t ∷ []) = true
ends_in_fallback (x ∷ y ∷ t) = ends_in_fallback (y ∷ t)

ends_in_fallback-append :
    {E : Type 0} (xs ys : List (Heard E))
    → ends_in_fallback ys ≡ true
    → ends_in_fallback (xs ++ ys) ≡ true
unfolding ends_in_fallback
ends_in_fallback-append [] ys h = h
ends_in_fallback-append (x ∷ []) (y ∷ ys) h = h
ends_in_fallback-append (x ∷ []) [] h = cc
ends_in_fallback-append (x ∷ z ∷ xs) ys h = ends_in_fallback-append (z ∷ xs) ys h

module _ {E W : Type 0} (stream_attempt : W → (List E × Option Text) × W)
    (rest_fallback : W → RestResult E × W) (max_backoff : ℕ) where
  -- The loop from `elapsed` on gives a run that sleeps within the backoff and concludes.
  Settles : ℕ → Option (Run E W) → Type 0
  Settles elapsed o =
      (r : Run E W) × (o ≡ some r)
      × (elapsed + total r.slept ≤ max elapsed max_backoff)
      × ((r.ended_well ≡ true) ⊎ (ends_in_fallback r.heard ≡ true))

  fall_back-ends :
      (last : Option Text) (w : W)
      → ends_in_fallback (fall_back stream_attempt rest_fallback max_backoff last w).heard ≡ true
  unfolding fall_back ends_in_fallback
  fall_back-ends last w = ground arith

  Settles-fall_back :
      (elapsed : ℕ) (last : Option Text) (w : W)
      → Settles elapsed (some (fall_back stream_attempt rest_fallback max_backoff last w))
  unfolding Settles total fall_back
  Settles-fall_back elapsed last w = (_, refl, ground arith, inr (fall_back-ends last w))

  slept_nothing :
      (elapsed : ℕ) (last : Option Text) (w : W)
      → elapsed + total (fall_back stream_attempt rest_fallback max_backoff last w).slept
        ≤ max elapsed max_backoff
  unfolding total fall_back
  slept_nothing elapsed last w = omega arith

  Settles-done :
      (events : List E) (elapsed : ℕ) (w : W)
      → Settles elapsed (
          some
            (record { heard = map Heard.event events; slept = []; ended_well = true; world = w }))
  unfolding Settles total
  Settles-done events elapsed w = (_, refl, omega arith, inl refl)

  -- What a retry makes of the run of the rest of the loop.
  retried : List E → ℕ → Option (Run E W) → Option (Run E W)
  retried events delay none = none
  retried events delay (some r) =
      some (before stream_attempt rest_fallback max_backoff events (delay ∷ []) r)

  Settles-retried :
      (events : List E) (delay elapsed : ℕ) (o : Option (Run E W))
      → elapsed + delay < max_backoff
      → Settles (elapsed + delay) o
      → Settles elapsed (retried events delay o)
  unfolding Settles total retried before
  Settles-retried events delay elapsed none h (r, e, k, c) = cc
  Settles-retried events delay elapsed (some q) h (r, e, k, c) =
      let same : q ≡ r = cc in
      (
        _,
        refl,
        rw same (omega arith),
        elim c [
          | inl w ↦ inl (rw same w)
          | inr f ↦ inr (rw same (ends_in_fallback-append (map Heard.event events) r.heard f))
        ],
      )

  abbrev loop : ℕ → ℕ → ℕ → Option Text → W → Option (Run E W)
  loop = stt_loop stream_attempt rest_fallback max_backoff

  Settles-fallen :
      (events : List E) (elapsed : ℕ) (last : Option Text) (w : W)
      → Settles elapsed (
          some (
            before stream_attempt rest_fallback max_backoff events []
              (fall_back stream_attempt rest_fallback max_backoff last w)))
  unfolding Settles before
  Settles-fallen events elapsed last w = (
    _,
    refl,
    slept_nothing elapsed last w,
    inr (ends_in_fallback-append (map Heard.event events) _ (fall_back-ends last w)),
  )

  Settles-suc :
      (fuel delay elapsed : ℕ) (last : Option Text) (w : W)
      → ((e : Option Text) (w' : W)
          → elapsed + delay < max_backoff
          → Settles (elapsed + delay) (
              loop fuel (min (delay * 2) (max_backoff - (elapsed + delay))) (elapsed + delay) e w'))
      → Settles elapsed (loop (suc fuel) delay elapsed last w)
  unfolding stt_loop retried
  Settles-suc fuel delay elapsed last w ih = elim (Bool-cases (ltb elapsed max_backoff)) [
    | inr over ↦ rw (over, stt_loop) (Settles-fall_back elapsed last w)
    | inl within ↦ elim (Option-cases (stream_attempt w).0.1) [
      | inl fine ↦
          rw (within, fine, stt_loop)
            (Settles-done (stream_attempt w).0.0 elapsed (stream_attempt w).1)
      | inr (e, bad) ↦ elim (Bool-cases (leb max_backoff (elapsed + delay))) [
        | inl enough ↦
            rw (within, bad, enough, stt_loop)
              (Settles-fallen (stream_attempt w).0.0 elapsed (some e) (stream_attempt w).1)
        | inr again ↦
            rw (within, bad, again, stt_loop)
              (Settles-retried (stream_attempt w).0.0 delay elapsed _ (leb-false→lt _ _ again)
                (ih (some e) (stream_attempt w).1 (leb-false→lt _ _ again)))
      ]
    ]
  ]

  stt_loop-Settles :
      (fuel delay elapsed : ℕ) (last : Option Text) (w : W)
      → 0 < delay
      → max_backoff ≤ fuel + elapsed
      → Settles elapsed (loop (suc fuel) delay elapsed last w)
  stt_loop-Settles zero delay elapsed last w d h =
      Settles-suc zero delay elapsed last w (λ e w' k. absurd (omega arith))
  stt_loop-Settles (suc fuel) delay elapsed last w d h =
      Settles-suc (suc fuel) delay elapsed last w (λ e w' k.
        stt_loop-Settles fuel (min (delay * 2) (max_backoff - (elapsed + delay))) (elapsed + delay)
          e w' (omega arith) (omega arith))

  -- The recognition of an utterance ends: it sleeps at most the longest backoff in all, and either a
  -- stream ended well or the last event is the one of the fallback, its result or an error.
  pub stt_stream-concludes :
      (w : W)
      → (r : Run E W) × (stt_stream_with_backoff_then_rest stream_attempt rest_fallback max_backoff
            (suc max_backoff)
            w
          ≡ some r)
        × (total r.slept ≤ max_backoff)
        × ((r.ended_well ≡ true) ⊎ (ends_in_fallback r.heard ≡ true))
  unfolding stt_stream_with_backoff_then_rest Settles
  stt_stream-concludes w =
      let (r, e, t, c) = stt_loop-Settles max_backoff 250 0 none w (omega arith) (omega arith) in
      (r, e, omega arith, c)
