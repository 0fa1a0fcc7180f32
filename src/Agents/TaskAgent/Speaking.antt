-- ===== src/Agents/TaskAgent/Speaking.antt =====
-- agents/task_agent.py: the loop of `stream_turn` over the chunks of the answer.
use sarvam.Prelude.{
  Bool, true, false, ◌||◌, not, Option, none, some, List, [], ◌∷◌, ◌++◌, Text, if◌then◌else◌,
  is_empty,
}
use sarvam.Agents.Directive.{Violation, disallowed, mismatch, romanized}
use sarvam.Agents.Language.{disallowed_script_in, target_language_mismatch, romanized_language_in}
use sarvam.Agents.TaskAgent.{Host, Turn}
use sarvam.Security.OutputValidation.{stream_safe_sanitize}

-- How the loop over the chunks is left.
pub data Left : Type 0 where
  violated : Violation → Left
  leaked : Left
  exhausted : Left

-- What the loop leaves: the texts that were yielded, the chunks so far in one text, and the tail
-- that is held back.
pub record Spoken : Type 0 where
  pub deltas : List Text
  pub accumulated : Text
  pub marker_tail : Text
  pub left : Left

abbrev pub delta_of : Text → List Text
delta_of t = if is_empty t then [] else t ∷ []

module _ {Obj W : Type 0} (h : Host Obj W) (turn : Turn Obj W) where
  -- The checks of a chunk while nothing has been yielded.
  unfoldable pub chunk_violation : Text → Text → Option Violation
  chunk_violation chunk so_far = elim (disallowed_script_in chunk) [
    | some name ↦ some (disallowed name)
    | none ↦
        elim (target_language_mismatch so_far turn.session.response_language
          turn.session.is_code_mixed) [
            | true ↦ some mismatch
            | false ↦ elim (romanized_language_in h.unicode so_far turn.session.response_language) [
              | none ↦ none
              | some code ↦ some (romanized code)
            ]
          ]
  ]

  abbrev pub first_violation : Bool → Text → Text → Option Violation
  first_violation true chunk so_far = none
  first_violation false chunk so_far = chunk_violation chunk so_far

  -- The loop over the chunks.
  unfoldable pub speak_chunks : Text → Text → Bool → List Text → Spoken
  unfolding chunk_violation
  speak_chunks accumulated tail yielded [] = record {
    deltas = [];
    accumulated = accumulated;
    marker_tail = tail;
    left = exhausted;
  }
  speak_chunks accumulated tail yielded (chunk ∷ chunks) =
      let (safe, tail', leak) = stream_safe_sanitize h.unicode (tail ++ chunk) in
      let rest =
        speak_chunks (accumulated ++ chunk) tail' (yielded || not (is_empty safe)) chunks in
      elim (first_violation yielded chunk (accumulated ++ chunk)) [
        | some v ↦ record {
          deltas = [];
          accumulated = accumulated ++ chunk;
          marker_tail = tail;
          left = violated v;
        }
        | none ↦ elim leak [
          | true ↦ record {
            deltas = delta_of safe;
            accumulated = accumulated ++ chunk;
            marker_tail = tail';
            left = leaked;
          }
          | false ↦ record rest { deltas = delta_of safe ++ rest.deltas }
        ]
      ]

  -- The flush behind a stream that ended by itself.
  unfoldable pub flush_tail : Spoken → Spoken
  flush_tail s =
      let (safe, tail, leak) = stream_safe_sanitize h.unicode s.marker_tail in
      elim s.left [
        | exhausted ↦ record s {
          deltas = s.deltas ++ delta_of (safe ++ tail);
          left = if leak then leaked else exhausted;
        }
        | leaked ↦ s
        | violated v ↦ s
      ]
