-- ===== src/Agents/TaskAgent/Stream.antt =====
-- agents/task_agent.py: `stream_turn`, the turn that streams its answer.
--
-- A stream is the list of what it yields and how it ends, so a generator that is left early has
-- read to the end all the same: the world after it is the world after the whole stream. The `done`
-- event of a turn without a provider error has no `error` key, which its readers take as false.
-- Traces and the counter of uncorrected drafts are left out.
pub mod Sniff
pub mod Ends
pub mod Window
pub mod Corrected
mod Examples
use sarvam.Prelude.{
  ℕ, Bool, true, false, ◌||◌, not, Option, none, some, List, [], ◌∷◌, ◌++◌, String, Text, map,
  length, leb, if◌then◌else◌, is_empty,
}
use sarvam.Agents.ToolCall.{looks_like_tool_call_attempt}
use sarvam.Agents.Directive.{
  Violation, disallowed, mismatch, romanized, expected_script, turn_directive,
  describe_script_violation,
}
use sarvam.Agents.SelfCheck.{self_check}
use sarvam.Agents.Language.{disallowed_script_in, target_language_mismatch, romanized_language_in}
use sarvam.Agents.TaskAgent.{
  Host, Turn, TurnResult, State, llm_unavailable_apology, with_forced_context, correction_request,
  self_check_failed,
}
use sarvam.Agents.TaskAgent.Finish.{
  directed, forced_company_context, is_present, build_system_prompt, version_id, run_turn,
}
use sarvam.Agents.TaskAgent.Sniffing.{
  tool_call_sniff_chars, StreamEnd, finished, tool_call_detected, failed, end_of, sniff_on,
  sniff_and_forward,
}
use sarvam.Agents.TaskAgent.Speaking.{
  Left, violated, leaked, exhausted, Spoken, delta_of, chunk_violation, first_violation,
  speak_chunks, flush_tail,
}
use sarvam.LlmAdapter.Messages.{
  user, assistant, Outcome, ok, err, provider_error, other_error, Streamed,
}
use sarvam.LlmAdapter.Router.{Router, complete_with_fallback, stream_with_fallback}
use sarvam.Security.Confirmation.{PendingConfirmation}
use sarvam.Security.OutputValidation.{sanitize_llm_output, stream_safe_sanitize}
use sarvam.Speech.Chunker.{chunk_deltas, flush, start}

-- The fields of the `done` event.
pub record TurnDone (Obj : Type 0) : Type 0 where
  pub text : Text
  pub prompt_version : Text
  pub tool_call_count : ℕ
  pub self_check_ok : Bool
  pub self_check_reason : Text
  pub pending_confirmation : Option (PendingConfirmation (Option Obj))
  pub error : Bool

pub data TurnEvent (Obj : Type 0) : Type 0 where
  text_delta : Text → TurnEvent Obj
  done : TurnDone Obj → TurnEvent Obj

module _ {Obj W : Type 0} (h : Host Obj W) (turn : Turn Obj W) where
  abbrev pub plain_done : Text → TurnDone Obj
  plain_done text = record {
    text = text;
    prompt_version = version_id h turn;
    tool_call_count = 0;
    self_check_ok = true;
    self_check_reason = [];
    pending_confirmation = none;
    error = false;
  }

  abbrev pub done_of : TurnResult Obj → TurnDone Obj
  done_of r = record {
    text = r.text;
    prompt_version = r.prompt_version;
    tool_call_count = r.tool_call_count;
    self_check_ok = r.self_check_ok;
    self_check_reason = r.self_check_reason;
    pending_confirmation = r.pending_confirmation;
    error = r.error;
  }

  abbrev pub result_events : TurnResult Obj → List (TurnEvent Obj)
  result_events r =
      if r.error then done (done_of r) ∷ [] else text_delta r.text ∷ done (done_of r) ∷ []

  -- The turn without streaming, behind what the stream has done.
  unfoldable pub fall_back_to_run_turn :
      ℕ → State Obj W h → Option (List (TurnEvent Obj) × State Obj W h)
  fall_back_to_run_turn fuel s =
      elim (run_turn h fuel (record turn { cancellation_token = none }) s.router s.gate_state
        s.world) [
          | none ↦ none
          | some r ↦ some (result_events r.0, record r.1 { trace = r.1.trace ++ s.trace })
        ]

  abbrev checked : Outcome (Bool × Text) → Bool × Text
  checked (ok v) = v
  checked (err e) = (true, self_check_failed)

  -- The self-check of the whole draft, and the `done` event.
  unfoldable pub conclude : Bool → Text → State Obj W h → TurnDone Obj × State Obj W h
  conclude forced draft s =
      let c =
        self_check h.unicode h.providers draft turn.session.mode turn.session.response_language
          turn.session.is_code_mixed (expected_script h.unicode turn.session turn.user_message)
          s.router s.world in
      let v = checked c.outcome in
      (
        record (plain_done (sanitize_llm_output h.unicode draft)) {
          tool_call_count = if forced then 1 else 0;
          self_check_ok = v.0;
          self_check_reason = v.1;
        },
        record s { router = c.router; world = c.world },
      )

  abbrev corrected_text : Outcome Text → Text
  corrected_text (ok t) = t
  corrected_text (err e) = llm_unavailable_apology

  -- The one correction of a draft in the wrong language.
  unfoldable pub corrected : Text → Text → Violation → State Obj W h → Text × State Obj W h
  corrected system accumulated v s =
      let asked =
        s.messages
        ++ (assistant accumulated
            ∷ user (correction_request (describe_script_violation v turn.session))
            ∷ []) in
      let answer = complete_with_fallback h.providers asked (some system) none s.router s.world in
      (corrected_text answer.outcome, record s { router = answer.router; world = answer.world })

  unfoldable pub after_stream :
      Text → Bool → Spoken → State Obj W h → List (TurnEvent Obj) × State Obj W h
  unfolding conclude corrected
  after_stream system forced spoken s =
      let shown = map (λ t. text_delta t) spoken.deltas in
      elim spoken.left [
        | leaked ↦ (
          shown ++ (done (plain_done (sanitize_llm_output h.unicode spoken.accumulated)) ∷ []),
          s,
        )
        | exhausted ↦
            let last = conclude forced spoken.accumulated s in (shown ++ (done last.0 ∷ []), last.1)
        | violated v ↦
            let (text, s') = corrected system spoken.accumulated v s in
            let last = conclude forced text s' in
            (shown ++ (text_delta text ∷ done last.0 ∷ []), last.1)
      ]

  abbrev provider_error_done : TurnDone Obj
  provider_error_done = record (plain_done llm_unavailable_apology) { error = true }

  -- An exception of the stream matters where the loop has not been left before. Only a provider error
  -- is caught: after another one the events end without `done`, and the caller gets the exception.
  unfoldable pub end_turn :
      ℕ
      → Text
      → Bool
      → StreamEnd
      → Spoken
      → State Obj W h
      → Option (List (TurnEvent Obj) × State Obj W h)
  end_turn fuel system forced end spoken s = elim spoken.left [
    | leaked ↦ some (after_stream system forced spoken s)
    | violated v ↦ some (after_stream system forced spoken s)
    | exhausted ↦ elim end [
      | finished ↦ some (after_stream system forced (flush_tail h turn spoken) s)
      | tool_call_detected ↦ fall_back_to_run_turn fuel s
      | failed (provider_error e) ↦
          some (map (λ t. text_delta t) spoken.deltas ++ (done provider_error_done ∷ []), s)
      | failed other_error ↦ some (map (λ t. text_delta t) spoken.deltas, s)
    ]
  ]

  unfoldable pub chunks_of : List Text × StreamEnd → List Text
  chunks_of (deltas, end) =
      let (chunks, s) = chunk_deltas h.unicode deltas (start h.unicode) in
      elim end [
        | finished ↦ chunks ++ flush h.unicode s
        | tool_call_detected ↦ chunks
        | failed e ↦ chunks
      ]

  -- The state in which the stream is opened, and whether context was forced into it.
  unfoldable pub open_stream : Router h.providers.P → Option h.gate.State → W → Bool × State Obj W h
  unfolding forced_company_context is_present
  open_stream router gate world =
      let start : State Obj W h = record {
        router = router;
        gate_state = gate;
        world = world;
        messages = [];
        tool_call_count = 0;
        trace = [];
      } in
      let forced = forced_company_context h turn start in
      let message =
        directed (turn_directive h.unicode turn.session turn.user_message) turn.user_message in
      let first = with_forced_context message (if is_present h forced.0 then forced.0 else none) in
      (is_present h forced.0, record forced.1 { messages = turn.history ++ (user first ∷ []) })

  -- `stream_turn`; `fuel` is for the turn without streaming.
  unfoldable pub stream_turn :
      ℕ
      → Router h.providers.P
      → Option h.gate.State
      → W
      → Option (List (TurnEvent Obj) × State Obj W h)
  stream_turn fuel router gate world =
      let system = build_system_prompt h turn in
      let (forced, s) = open_stream router gate world in
      let raw = stream_with_fallback h.providers s.messages (some system) s.router s.world in
      let sniffed = sniff_and_forward (map (λ t. t.0) turn.tools) raw.outcome in
      end_turn fuel system forced sniffed.1 (speak_chunks h turn [] [] false (chunks_of sniffed))
        (record s { router = raw.router; world = raw.world })
