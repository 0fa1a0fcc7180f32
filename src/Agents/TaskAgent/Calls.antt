-- ===== src/Agents/TaskAgent/Calls.antt =====
-- agents/task_agent.py: the body of `for call in calls`, one tool call after the other.
--
-- The trace has the latest effect first.
use sarvam.Prelude.{
  suc, Bool, true, false, ◌&&◌, Option, none, some, List, [], ◌∷◌, ◌++◌, Text, codes, lookup, leb,
  if◌then◌else◌,
}
use sarvam.Agents.Untrusted.{wrap_untrusted}
use sarvam.Agents.TaskAgent.{
  ToolFn, ToolResult, returned, raised, Host, Turn, ran, redeemed, State, Ending, clarify, confirm,
  member,
}
use sarvam.Supervisor.Session.{is_voice}
use sarvam.LlmAdapter.Messages.{Message, user, tool, ToolCall}
use sarvam.Security.Confirmation.{PendingConfirmation}

unfoldable pub output_of : Text → ToolResult → Text
output_of name (returned t) = t
output_of name (raised e) = codes "Error: tool '" ++ (name ++ (codes "' failed: " ++ e))

module _ {Obj W : Type 0} (h : Host Obj W) where
  -- `call.args or {}`
  unfoldable pub args_or : Option Obj → Obj
  args_or none = h.json.empty
  args_or (some a) = a

  unfoldable pub tool_output : Turn Obj W → ToolCall Obj → W → Text × W
  unfolding output_of args_or
  tool_output turn c w = elim (lookup {V = ToolFn Obj W} c.name turn.tools) [
    | none ↦ (codes "Error: tool '" ++ (codes c.name ++ codes "' is not available."), w)
    | some f ↦ (output_of (codes c.name) (f (args_or c.args) w).0, (f (args_or c.args) w).1)
  ]

  unfoldable pub tool_message : Bool → ToolCall Obj → Text → Message Obj
  tool_message native c content =
      let wrapped = wrap_untrusted h.unicode content (codes "tool_result_" ++ codes c.name) in
      if native then tool c.id c.name wrapped else user wrapped

  unfoldable pub run_tool : Turn Obj W → Bool → ToolCall Obj → State Obj W h → State Obj W h
  run_tool turn native c s =
      let out = tool_output turn c s.world in
      record s {
        world = out.1;
        messages = s.messages ++ (tool_message native c out.0 ∷ []);
        tool_call_count = suc s.tool_call_count;
        trace = ran c.name c.args ∷ s.trace;
      }

  -- `confirmation_gate.consume`, where there are a token and a gate.
  unfoldable pub redeem_confirmation :
      Turn Obj W → ToolCall Obj → State Obj W h → Bool × State Obj W h
  redeem_confirmation turn c s = elim turn.confirmation_token [
    | none ↦ (false, s)
    | some t ↦ elim s.gate_state [
      | none ↦ (false, s)
      | some g ↦
          let done = h.gate.consume t c.name c.args (h.providers.clock s.world) g in
          (
            done.1,
            record s {
              gate_state = some done.0;
              trace = if done.1 then redeemed c.name c.args ∷ s.trace else s.trace;
            },
          )
    ]
  ]

  unfoldable pub ask_confirmation :
      ToolCall Obj → State Obj W h → PendingConfirmation (Option Obj) × State Obj W h
  ask_confirmation c s = elim s.gate_state [
    | none ↦ (record { token = ""; tool_name = c.name; args = c.args }, s)
    | some g ↦
        let fresh = h.token_urlsafe s.world in
        (
          record { token = fresh.0; tool_name = c.name; args = c.args },
          record s {
            gate_state = some (h.gate.request fresh.0 c.name c.args (h.providers.clock s.world) g);
            world = fresh.1;
          },
        )
  ]

  unfoldable pub run_confirmed :
      Turn Obj W → Bool → ToolCall Obj → State Obj W h → Option (Ending Obj) × State Obj W h
  run_confirmed turn native c s =
      let done = redeem_confirmation turn c s in
      let asked = ask_confirmation c done.1 in
      elim done.0 [
        | true ↦ (none, run_tool turn native c done.1)
        | false ↦ (some (confirm asked.0), asked.1)
      ]

  -- One call: an ending where the turn returns, none where the loop goes on.
  unfoldable pub run_call :
      Turn Obj W → Bool → ToolCall Obj → State Obj W h → Option (Ending Obj) × State Obj W h
  run_call turn native c s = elim (leb turn.max_tool_calls s.tool_call_count) [
    | true ↦ (some clarify, s)
    | false ↦ elim (member c.name turn.write_scope_tools && is_voice turn.session.mode) [
      | true ↦ run_confirmed turn native c s
      | false ↦ (none, run_tool turn native c s)
    ]
  ]

  unfoldable pub run_calls :
      Turn Obj W → Bool → List (ToolCall Obj) → State Obj W h → Option (Ending Obj) × State Obj W h
  run_calls turn native [] s = (none, s)
  run_calls turn native (c ∷ cs) s =
      let step = run_call turn native c s in
      elim step.0 [ some e ↦ (some e, step.1) | none ↦ run_calls turn native cs step.1 ]
