-- ===== src/Gateway/FailurePolicy/Synthesis.antt =====
-- The speech synthesis is tried twice, and then the caller is told.
use sarvam.Prelude.{◌≡◌, inl, inr, ℕ, Option, none, some, List, ◌++◌, Text, Option-cases}
use sarvam.Gateway.FailurePolicy.{Spoken, tts_synthesize_with_retry_then_fallback}

module _ {W : Type 0} (primary_attempt : W → (List (List ℕ) × Option Text) × W)
    (on_text_only_fallback : W → W) where
  abbrev pub synthesize : W → Spoken W
  synthesize = tts_synthesize_with_retry_then_fallback primary_attempt on_text_only_fallback

  -- How a synthesis goes. Only in `gave_up` is the caller told to show text only.
  pub data Course (w : W) : Spoken W → Type 0 where
    at_once :
        (chunks : List (List ℕ)) (u : W)
        → primary_attempt w ≡ ((chunks, none), u)
        → Course w (record { chunks = chunks; world = u })
    retried :
        (before chunks : List (List ℕ)) (e : Text) (u v : W)
        → primary_attempt w ≡ ((before, some e), u)
        → primary_attempt u ≡ ((chunks, none), v)
        → Course w (record { chunks = before ++ chunks; world = v })
    gave_up :
        (before chunks : List (List ℕ)) (e e' : Text) (u v : W)
        → primary_attempt w ≡ ((before, some e), u)
        → primary_attempt u ≡ ((chunks, some e'), v)
        → Course w (record { chunks = before ++ chunks; world = on_text_only_fallback v })

  -- The synthesis is tried once, and again in the world that the first attempt left if that one
  -- failed. The caller hears the chunks of all attempts. If both failed, it is told to show text only,
  -- after both; if one succeeded, nothing happens behind it and the caller is not told.
  pub synthesize-Course : (w : W) → Course w (synthesize w)
  unfolding tts_synthesize_with_retry_then_fallback
  synthesize-Course w =
      let one = primary_attempt w in
      let two = primary_attempt one.1 in
      elim (Option-cases one.0.1) [
        | inl p ↦
            rw (p, tts_synthesize_with_retry_then_fallback)
              (at_once one.0.0 one.1 (λ i. ((one.0.0, p i), one.1)))
        | inr (e, p) ↦ elim (Option-cases two.0.1) [
          | inl q ↦
              rw (p, q, tts_synthesize_with_retry_then_fallback)
                (retried one.0.0 two.0.0 e one.1 two.1 (λ i. ((one.0.0, p i), one.1))
                  (λ i. ((two.0.0, q i), two.1)))
          | inr (e', q) ↦
              rw (p, q, tts_synthesize_with_retry_then_fallback)
                (gave_up one.0.0 two.0.0 e e' one.1 two.1 (λ i. ((one.0.0, p i), one.1))
                  (λ i. ((two.0.0, q i), two.1)))
        ]
      ]
