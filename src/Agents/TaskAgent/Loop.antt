-- ===== src/Agents/TaskAgent/Loop.antt =====
-- agents/task_agent.py: the `while True` of `run_turn`, with the checks of agents/cancellation.py.
--
-- The loop runs on fuel; a round that goes on has run a tool, so the tool budget bounds the rounds.
use sarvam.Prelude.{
  ℕ, zero, suc, Bool, true, false, Option, none, some, List, [], ◌∷◌, ◌++◌, map, Text,
  if◌then◌else◌, is_empty,
}
use sarvam.Agents.ToolCall.{parse_tool_call}
use sarvam.Agents.TaskAgent.{Host, Turn, State, Ending, drafted, provider_down, stopped}
use sarvam.Agents.TaskAgent.Calls.{run_calls}
use sarvam.LlmAdapter.Messages.{
  Message, assistant, assistant_calls, ToolCall, CompletionResult, Outcome, ok, err,
}
use sarvam.LlmAdapter.Router.{complete_with_tools_and_fallback}

module _ {Obj W : Type 0} (h : Host Obj W) where
  -- `cancellation_token.check()`, where there is a token.
  unfoldable pub is_cancelled : Turn Obj W → W → Bool
  is_cancelled turn w = elim turn.cancellation_token [ none ↦ false | some t ↦ t.is_cancelled w ]

  -- `cancellation_token.run(coro)` raises where the token has fired or fires before the call is done.
  unfoldable pub is_interrupted : Turn Obj W → W → W → Bool
  is_interrupted turn w w' = elim turn.cancellation_token [
    | none ↦ false
    | some t ↦ if t.is_cancelled w then true else t.interrupts w w'
  ]

  unfoldable pub push : Message Obj → State Obj W h → State Obj W h
  push m s = record s { messages = s.messages ++ (m ∷ []) }

  unfoldable pub dispatch :
      Turn Obj W → Bool → List (ToolCall Obj) → State Obj W h → Option (Ending Obj) × State Obj W h
  dispatch turn native calls s =
      let done = run_calls h turn native calls s in
      elim done.0 [
        | some e ↦ (some e, done.1)
        | none ↦ elim (is_cancelled turn done.1.world) [
          | true ↦ (some stopped, done.1)
          | false ↦ (none, done.1)
        ]
      ]

  abbrev content_of : Text → Option Text
  content_of t = if is_empty t then none else some t

  -- What the model's answer leads to: its native calls, else a call written as text, else a draft.
  unfoldable pub answer :
      Turn Obj W
      → Outcome (CompletionResult Obj)
      → State Obj W h
      → Option (Ending Obj) × State Obj W h
  answer turn (err e) s = (some provider_down, s)
  answer turn (ok r) s = elim r.tool_calls [
    | c ∷ cs ↦ dispatch turn true (c ∷ cs) (push (assistant_calls (content_of r.text) (c ∷ cs)) s)
    | [] ↦ elim (parse_tool_call h.unicode h.json r.text (map (λ e. e.0) turn.tools)) [
      | none ↦ (some (drafted r.text), s)
      | some c ↦ dispatch turn false (c ∷ []) (push (assistant r.text) s)
    ]
  ]

  unfoldable pub round : Turn Obj W → Text → State Obj W h → Option (Ending Obj) × State Obj W h
  round turn system s =
      let done =
        complete_with_tools_and_fallback h.providers s.messages (some system) turn.tool_definitions
          s.router s.world in
      let s' : State Obj W h = record s { router = done.router; world = done.world } in
      elim (is_cancelled turn s.world) [
        | true ↦ (some stopped, s)
        | false ↦ elim (is_interrupted turn s.world done.world) [
          | true ↦ (some stopped, s')
          | false ↦ answer turn done.outcome s'
        ]
      ]

  unfoldable pub turn_loop :
      ℕ → Turn Obj W → Text → State Obj W h → Option (Ending Obj) × State Obj W h
  turn_loop zero turn system s = (none, s)
  turn_loop (suc fuel) turn system s =
      let step = round turn system s in
      elim step.0 [ some e ↦ (some e, step.1) | none ↦ turn_loop fuel turn system step.1 ]
