-- ===== src/Gateway/FailurePolicy.antt =====
-- speech_gateway/failure_policy.py: what happens when speech services fail.
--
-- Times are milliseconds. An attempt and the fallback act on the world; the log lines are left out.
pub mod Backoff
pub mod Synthesis
mod Examples
use sarvam.Prelude.{
  ℕ, zero, suc, ◌+◌, ◌-◌, ◌*◌, Bool, true, false, ◌&&◌, not, Option, none, some, List, [], ◌∷◌,
  ◌++◌, map, Text, codes, ltb, leb, min, if◌then◌else◌, is_empty,
}
use sarvam.Agents.Unicode.{Unicode}
use sarvam.Security.OutputValidation.{strip}

-- A transcript event, as far as the policy reads it; the confidence is in hundredths.
pub record Transcript : Type 0 where
  pub is_transcript : Bool
  pub is_final : Bool
  pub text : Text
  pub confidence : Option ℕ

abbrev pub below_threshold : Option ℕ → Bool
below_threshold none = false
below_threshold (some c) = ltb c 40

unfoldable pub is_low_confidence_transcript : Unicode → Transcript → Bool
is_low_confidence_transcript u e =
    if e.is_transcript && e.is_final
    then (if is_empty (strip u e.text) then true else below_threshold e.confidence)
    else false

-- What the caller receives: the events of the stream, the result of the REST fallback with the error
-- before it, or an error event with both errors.
pub data Heard (E : Type 0) : Type 0 where
  event : E → Heard E
  via_rest : E → Option Text → Heard E
  failed : Option Text → Text → Heard E

pub data RestResult (E : Type 0) : Type 0 where
  result : E → RestResult E
  rest_error : Text → RestResult E

abbrev last_word : {E : Type 0} → Option Text → RestResult E → Heard E
last_word last (result e) = via_rest e last
last_word last (rest_error t) = failed last t

-- A run of the policy: what it yielded, how long it slept before each retry, whether a stream ended
-- well, and the world after it.
pub record Run (E W : Type 0) : Type 0 where
  pub heard : List (Heard E)
  pub slept : List ℕ
  pub ended_well : Bool
  pub world : W

module _ {E W : Type 0} (stream_attempt : W → (List E × Option Text) × W)
    (rest_fallback : W → RestResult E × W) (max_backoff : ℕ) where
  unfoldable pub fall_back : Option Text → W → Run E W
  fall_back last w =
      let rest = rest_fallback w in
      record { heard = last_word last rest.0 ∷ []; slept = []; ended_well = false; world = rest.1 }

  unfoldable pub before : List E → List ℕ → Run E W → Run E W
  before events sleeps r = record r {
    heard = map Heard.event events ++ r.heard;
    slept = sleeps ++ r.slept;
  }

  -- The `while` loop, on fuel; then the fallback.
  unfoldable pub stt_loop : ℕ → ℕ → ℕ → Option Text → W → Option (Run E W)
  unfolding fall_back before
  stt_loop zero delay elapsed last w = none
  stt_loop (suc fuel) delay elapsed last w =
      let tried = stream_attempt w in
      let events = tried.0.0 in
      elim (ltb elapsed max_backoff) [
        | false ↦ some (fall_back last w)
        | true ↦ elim tried.0.1 [
          | none ↦ some (record {
            heard = map Heard.event events;
            slept = [];
            ended_well = true;
            world = tried.1;
          })
          | some e ↦ elim (leb max_backoff (elapsed + delay)) [
            | true ↦ some (before events [] (fall_back (some e) tried.1))
            | false ↦
                elim (stt_loop fuel (min (delay * 2) (max_backoff - (elapsed + delay)))
                  (elapsed + delay) (some e) tried.1) [
                    | none ↦ none
                    | some r ↦ some (before events (delay ∷ []) r)
                  ]
          ]
        ]
      ]

  unfoldable pub stt_stream_with_backoff_then_rest : ℕ → W → Option (Run E W)
  stt_stream_with_backoff_then_rest fuel w = stt_loop fuel 250 0 none w

-- What the caller of the synthesis receives, and the world after it.
pub record Spoken (W : Type 0) : Type 0 where
  pub chunks : List (List ℕ)
  pub world : W

module _ {W : Type 0} (primary_attempt : W → (List (List ℕ) × Option Text) × W)
    (on_text_only_fallback : W → W) where
  -- `for attempt in range(2)`
  unfoldable pub tts_synthesize_with_retry_then_fallback : W → Spoken W
  tts_synthesize_with_retry_then_fallback w =
      let one = primary_attempt w in
      let two = primary_attempt one.1 in
      elim one.0.1 [
        | none ↦ record { chunks = one.0.0; world = one.1 }
        | some e ↦ elim two.0.1 [
          | none ↦ record { chunks = one.0.0 ++ two.0.0; world = two.1 }
          | some e' ↦ record { chunks = one.0.0 ++ two.0.0; world = on_text_only_fallback two.1 }
        ]
      ]
