-- ===== src/Gateway/FailurePolicy/Examples.antt =====
-- Tests and witnesses of the failure policy: a service that never answers, and one that answers the
-- second time. The world is the number of attempts so far.
use sarvam.Prelude.{
  ℕ, suc, ◌+◌, ◌≤◌, ◌≡◌, ◌⊎◌, refl, true, Option, none, some, List, [], ◌∷◌, Text, codes, ◌==◌,
  if◌then◌else◌,
}
use sarvam.Gateway.FailurePolicy.{
  tts_synthesize_with_retry_then_fallback, RestResult, result, Run,
  stt_stream_with_backoff_then_rest, stt_loop,
}
use sarvam.Gateway.FailurePolicy.Backoff.{total, ends_in_fallback, stt_stream-concludes}
use sarvam.Gateway.FailurePolicy.Synthesis.{synthesize, Course, synthesize-Course}

abbrev drops : ℕ → (List ℕ × Option Text) × ℕ
drops w = (([], some (codes "dropped")), suc w)

abbrev rest : ℕ → RestResult ℕ × ℕ
rest w = (result 5, w)

abbrev sleeps_of : Option (Run ℕ ℕ) → List ℕ
sleeps_of none = []
sleeps_of (some r) = r.slept

three_sleeps :
    sleeps_of (stt_stream_with_backoff_then_rest drops rest 2000 9 0) ≡ 250 ∷ 500 ∷ 1000 ∷ []
unfolding stt_stream_with_backoff_then_rest stt_loop
three_sleeps = refl

stt_stream-concludes_example :
    (r : Run ℕ ℕ) × (stt_stream_with_backoff_then_rest drops rest 2000 2001 0 ≡ some r)
    × (total r.slept ≤ 2000)
    × ((r.ended_well ≡ true) ⊎ (ends_in_fallback r.heard ≡ true))
stt_stream-concludes_example = stt_stream-concludes drops rest 2000 0

abbrev speaks : ℕ → (List (List ℕ) × Option Text) × ℕ
speaks w = (if w == 0 then ([], some (codes "closed")) else ((1 ∷ []) ∷ [], none), suc w)

abbrev tell : ℕ → ℕ
tell w = w + 100

synthesize-Course_example : Course speaks tell 0 (synthesize speaks tell 0)
synthesize-Course_example = synthesize-Course speaks tell 0

-- The second attempt succeeds, so the caller is not told.
not_told : (synthesize speaks tell 0).world ≡ 2
unfolding tts_synthesize_with_retry_then_fallback
not_told = refl

told : (synthesize (λ w. (([], some (codes "closed")), suc w)) tell 0).world ≡ 102
unfolding tts_synthesize_with_retry_then_fallback
told = refl
