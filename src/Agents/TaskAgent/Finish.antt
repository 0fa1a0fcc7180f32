-- ===== src/Agents/TaskAgent/Finish.antt =====
-- agents/task_agent.py: the checks and the correction of a draft, and `run_turn` from its first line
-- to its result.
--
-- A prompt template comes with its placeholders filled in (`Host.template`).
use sarvam.Prelude.{
  ℕ, Bool, true, false, Option, none, some, [], ◌∷◌, ◌++◌, Text, codes, contains, lookup, keep, not,
  ◌==◌, if◌then◌else◌, is_empty,
}
use sarvam.Agents.ToolCall.{plain_text_messages}
use sarvam.Agents.Directive.{
  Violation, disallowed, mismatch, romanized, expected_script, turn_directive,
  describe_script_violation,
}
use sarvam.Agents.SelfCheck.{self_check}
use sarvam.Agents.Language.{disallowed_script_in, target_language_mismatch, romanized_language_in}
use sarvam.Agents.TaskAgent.{
  ToolFn, ToolResult, returned, raised, Host, Turn, TurnResult, ran, State, Ending, drafted,
  provider_down, clarify, confirm, stopped, clarifying_question, confirmation_required_text,
  llm_unavailable_apology, mode_stem, with_forced_context, truncate_context, correction_request,
  self_check_failed,
}
use sarvam.Agents.TaskAgent.Loop.{is_cancelled, is_interrupted, push, turn_loop}
use sarvam.LlmAdapter.Messages.{user, assistant, Outcome, ok, err}
use sarvam.LlmAdapter.Router.{Router, complete_with_fallback}
use sarvam.Security.OutputValidation.{sanitize_llm_output}

-- How a check ends: with a verdict, with a provider error, or with `TurnCancelled`.
pub data Review : Type 0 where
  judged : Bool → Text → Review
  unavailable : Review
  halted : Review

-- What is shipped: the draft with the verdict and its reason, or nothing after a cancellation.
pub data Shipped : Type 0 where
  reply : Text → Bool → Text → Shipped
  cut : Shipped

abbrev reviewed : Outcome (Bool × Text) → Review
reviewed (ok v) = judged v.0 v.1
reviewed (err e) = unavailable

abbrev if_inconclusive : Review → Review
if_inconclusive unavailable = judged true self_check_failed
if_inconclusive (judged b t) = judged b t
if_inconclusive halted = halted

-- `f"{directive}\n\n{text}" if directive else text`
abbrev pub directed : Text → Text → Text
directed directive text = if is_empty directive then text else directive ++ (codes "\n\n" ++ text)

module _ {Obj W : Type 0} (h : Host Obj W) where
  -- `check`
  unfoldable pub check : Turn Obj W → Text → State Obj W h → Review × State Obj W h
  check turn draft s =
      let done =
        self_check h.unicode h.providers draft turn.session.mode turn.session.response_language
          turn.session.is_code_mixed (expected_script h.unicode turn.session turn.user_message)
          s.router s.world in
      let s' : State Obj W h = record s { router = done.router; world = done.world } in
      elim (is_cancelled h turn s.world) [
        | true ↦ (halted, s)
        | false ↦ elim (is_interrupted h turn s.world done.world) [
          | true ↦ (halted, s')
          | false ↦ (reviewed done.outcome, s')
        ]
      ]

  unfoldable pub script_violation : Turn Obj W → Text → Option Violation
  script_violation turn draft = elim (disallowed_script_in draft) [
    | some name ↦ some (disallowed name)
    | none ↦
        elim (target_language_mismatch draft turn.session.response_language
          turn.session.is_code_mixed) [
            | true ↦ some mismatch
            | false ↦ elim (romanized_language_in h.unicode draft turn.session.response_language) [
              | none ↦ none
              | some code ↦ some (romanized code)
            ]
          ]
  ]

  unfoldable pub review : Turn Obj W → Text → State Obj W h → Review × State Obj W h
  review turn draft s =
      let checked = check turn draft s in
      elim (script_violation turn draft) [
        | some v ↦ (judged false (describe_script_violation v turn.session), s)
        | none ↦ (if_inconclusive checked.0, checked.1)
      ]

  abbrev recheck : Text → Text → Review → Shipped
  recheck draft reason (judged b r) = reply draft b r
  recheck draft reason unavailable = reply draft false reason
  recheck draft reason halted = cut

  -- The one correction of a draft that a review refused.
  unfoldable pub correct : Turn Obj W → Text → Text → Text → State Obj W h → Shipped × State Obj W h
  correct turn system draft reason s =
      let directive = turn_directive h.unicode turn.session turn.user_message in
      let asked =
        push h (user (directed directive (correction_request reason)))
          (push h (assistant draft) s) in
      let done =
        complete_with_fallback h.providers (plain_text_messages asked.messages) (some system) none
          asked.router asked.world in
      let s' : State Obj W h = record asked { router = done.router; world = done.world } in
      elim (is_cancelled h turn asked.world) [
        | true ↦ (cut, asked)
        | false ↦ elim (is_interrupted h turn asked.world done.world) [
          | true ↦ (cut, s')
          | false ↦ elim done.outcome [
            | err e ↦ (reply draft false reason, s')
            | ok text ↦
                let checked = check turn text s' in (recheck text reason checked.0, checked.1)
          ]
        ]
      ]

  unfoldable pub settle : Turn Obj W → Text → Text → State Obj W h → Shipped × State Obj W h
  settle turn system draft s =
      let first = review turn draft s in
      elim first.0 [
        | halted ↦ (cut, first.1)
        | unavailable ↦ (reply draft true self_check_failed, first.1)
        | judged fine reason ↦ elim fine [
          | true ↦ (reply draft true reason, first.1)
          | false ↦ correct turn system draft reason first.1
        ]
      ]

  -- `_forced_company_context`: the tool is run whatever the model asks for, so it is in the trace.
  unfoldable pub capped : ToolResult → Option Text
  capped (raised e) = none
  capped (returned context) = some (truncate_context context)

  unfoldable pub forced_company_context : Turn Obj W → State Obj W h → Option Text × State Obj W h
  unfolding capped
  forced_company_context turn s =
      let normalized = keep (λ c. not (c == b' ')) (h.unicode.lower turn.user_message) in
      elim (contains normalized (codes "mtouch")) [
        | false ↦ (none, s)
        | true ↦ elim (lookup {V = ToolFn Obj W} "search_company_knowledge" turn.tools) [
          | none ↦ (none, s)
          | some f ↦
              let out = f (h.json.query turn.user_message) s.world in
              (
                capped out.0,
                record s {
                  world = out.1;
                  trace =
                      ran "search_company_knowledge" (some (h.json.query turn.user_message))
                      ∷ s.trace;
                },
              )
        ]
      ]

  unfoldable pub is_present : Option Text → Bool
  is_present none = false
  is_present (some t) = not (is_empty t)

  unfoldable pub build_system_prompt : Turn Obj W → Text
  build_system_prompt turn =
      let text = h.template (mode_stem turn.session.mode) turn.prompt_version turn.session in
      if is_empty turn.tool_manifest then text else text ++ (codes "\n\n" ++ turn.tool_manifest)

  unfoldable pub version_id : Turn Obj W → Text
  version_id turn = mode_stem turn.session.mode ++ (codes "." ++ turn.prompt_version)

  -- The state in which the loop starts.
  unfoldable pub open_turn :
      Turn Obj W → Router h.providers.P → Option h.gate.State → W → State Obj W h
  unfolding forced_company_context is_present
  open_turn turn router gate world =
      let start : State Obj W h = record {
        router = router;
        gate_state = gate;
        world = world;
        messages = [];
        tool_call_count = 0;
        trace = [];
      } in
      let forced = forced_company_context turn start in
      let message =
        directed (turn_directive h.unicode turn.session turn.user_message) turn.user_message in
      let first = with_forced_context message (if is_present forced.0 then forced.0 else none) in
      record forced.1 {
        messages = turn.history ++ (user first ∷ []);
        tool_call_count = if is_present forced.0 then 1 else 0;
      }

  unfoldable pub fixed_result : Turn Obj W → Text → State Obj W h → TurnResult Obj
  unfolding version_id
  fixed_result turn text s = record {
    text = text;
    prompt_version = version_id turn;
    tool_call_count = s.tool_call_count;
    self_check_ok = true;
    self_check_reason = [];
    cancelled = false;
    pending_confirmation = none;
    error = false;
  }

  unfoldable pub ship : Turn Obj W → Shipped × State Obj W h → TurnResult Obj × State Obj W h
  ship turn (cut, s) = (record (fixed_result turn [] s) { cancelled = true }, s)
  ship turn (reply draft fine reason, s) = (
    record (fixed_result turn (sanitize_llm_output h.unicode draft) s) {
      self_check_ok = fine;
      self_check_reason = reason;
    },
    s,
  )

  unfoldable pub close_turn :
      Turn Obj W → Text → Ending Obj → State Obj W h → TurnResult Obj × State Obj W h
  close_turn turn system (drafted draft) s = ship turn (settle turn system draft s)
  close_turn turn system provider_down s =
      (record (fixed_result turn llm_unavailable_apology s) { error = true }, s)
  close_turn turn system clarify s = (fixed_result turn clarifying_question s, s)
  close_turn turn system (confirm p) s =
      (record (fixed_result turn confirmation_required_text s) { pending_confirmation = some p }, s)
  close_turn turn system stopped s = (record (fixed_result turn [] s) { cancelled = true }, s)

  -- `run_turn`, for as many rounds of the loop as `fuel` says.
  unfoldable pub run_turn :
      ℕ
      → Turn Obj W
      → Router h.providers.P
      → Option h.gate.State
      → W
      → Option (TurnResult Obj × State Obj W h)
  run_turn fuel turn router gate world =
      let system = build_system_prompt turn in
      let looped = turn_loop h fuel turn system (open_turn turn router gate world) in
      elim looped.0 [ none ↦ none | some e ↦ some (close_turn turn system e looped.1) ]
