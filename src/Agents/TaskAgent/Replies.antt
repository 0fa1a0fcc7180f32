-- ===== src/Agents/TaskAgent/Replies.antt =====
-- agents/task_agent.py: the texts and the pending confirmations of `run_turn`'s results.
use sarvam.Prelude.{
  ℕ, zero, suc, ◌≡◌, refl, Bool, true, false, ◌&&◌, Option, none, some, List, [], ◌∷◌, Text, arith,
}
use sarvam.Agents.TaskAgent.{
  Host, Turn, TurnResult, State, Ending, drafted, provider_down, clarify, confirm, stopped, member,
  clarifying_question, confirmation_required_text, llm_unavailable_apology,
}
use sarvam.Agents.TaskAgent.Calls.{
  redeem_confirmation, ask_confirmation, run_confirmed, run_call, run_calls,
}
use sarvam.Agents.TaskAgent.Loop.{dispatch, answer, round, turn_loop}
use sarvam.Agents.TaskAgent.Finish.{
  Shipped, reply, cut, settle, fixed_result, ship, open_turn, build_system_prompt, close_turn,
  run_turn,
}
use sarvam.LlmAdapter.Messages.{Outcome, CompletionResult, ToolCall, ok, err}
use sarvam.LlmAdapter.Router.{Router}
use sarvam.Security.Confirmation.{PendingConfirmation}
use sarvam.Security.OutputValidation.Tags.{TagFree, nil, TagFree-plain}
use sarvam.Security.OutputValidation.Reply.{sanitize_llm_output-TagFree}
use sarvam.Supervisor.Session.{is_voice}

module _ {Obj W : Type 0} (h : Host Obj W) (turn : Turn Obj W) where
  ship-TagFree :
      (gt_visible : h.unicode.is_space b'>' ≡ false) (x : Shipped) (s : State Obj W h)
      → TagFree (ship h turn (x, s)).0.text
  unfolding ship fixed_result
  ship-TagFree gt_visible cut s = nil
  ship-TagFree gt_visible (reply draft fine reason) s =
      sanitize_llm_output-TagFree h.unicode gt_visible draft

  close-TagFree :
      (gt_visible : h.unicode.is_space b'>' ≡ false) (system : Text) (e : Ending Obj)
      (s : State Obj W h)
      → TagFree (close_turn h turn system e s).0.text
  unfolding close_turn fixed_result
  close-TagFree v system (drafted draft) s =
      ship-TagFree v (settle h turn system draft s).0 (settle h turn system draft s).1
  close-TagFree v system provider_down s = TagFree-plain llm_unavailable_apology refl
  close-TagFree v system clarify s = TagFree-plain clarifying_question refl
  close-TagFree v system (confirm p) s = TagFree-plain confirmation_required_text refl
  close-TagFree v system stopped s = nil

  -- Whatever the providers and the tools say, and however the turn ends, the text of its result has
  -- no HTML tag in it. (`>` must not count as white space.)
  pub run_turn-TagFree :
      (fuel : ℕ) (router : Router h.providers.P) (gate : Option h.gate.State) (world : W)
      (r : TurnResult Obj) (s : State Obj W h)
      → h.unicode.is_space b'>' ≡ false
      → run_turn h fuel turn router gate world ≡ some (r, s)
      → TagFree r.text
  unfolding run_turn
  run_turn-TagFree fuel router gate world r s v e = grind (arith, close-TagFree v)

  -- Does an ending that asks for a confirmation ask for an irreversible tool, in a voice turn?
  abbrev asks_fitly : Ending Obj → Bool
  asks_fitly (confirm p) = is_voice turn.session.mode && member p.tool_name turn.write_scope_tools
  asks_fitly _ = true

  unfoldable fits : Option (Ending Obj) → Bool
  fits none = true
  fits (some e) = asks_fitly e

  asked-name :
      (c : ToolCall Obj) (s : State Obj W h) → (ask_confirmation h c s).0.tool_name ≡ c.name
  unfolding ask_confirmation
  asked-name c s = ground arith

  run_call-fits :
      (native : Bool) (c : ToolCall Obj) (s : State Obj W h)
      → fits (run_call h turn native c s).0 ≡ true
  unfolding run_call run_confirmed fits
  run_call-fits native c s = ground (arith, asked-name c (redeem_confirmation h turn c s).1)

  run_calls-fits :
      (native : Bool) (cs : List (ToolCall Obj)) (s : State Obj W h)
      → fits (run_calls h turn native cs s).0 ≡ true
  unfolding run_calls fits
  run_calls-fits native [] s = refl
  run_calls-fits native (c ∷ cs) s =
      ground
        (arith, run_call-fits native c s, run_calls-fits native cs (run_call h turn native c s).1)

  dispatch-fits :
      (native : Bool) (cs : List (ToolCall Obj)) (s : State Obj W h)
      → fits (dispatch h turn native cs s).0 ≡ true
  unfolding dispatch fits
  dispatch-fits native cs s = ground (arith, run_calls-fits native cs s)

  answer-fits :
      (o : Outcome (CompletionResult Obj)) (s : State Obj W h) → fits (answer h turn o s).0 ≡ true
  unfolding answer fits
  answer-fits (err e) s = refl
  answer-fits (ok r) s = grind (arith, dispatch-fits)

  round-fits : (system : Text) (s : State Obj W h) → fits (round h turn system s).0 ≡ true
  unfolding round fits
  round-fits system s = grind (arith, answer-fits)

  loop-fits :
      (fuel : ℕ) (system : Text) (s : State Obj W h)
      → fits (turn_loop h fuel turn system s).0 ≡ true
  unfolding turn_loop fits
  loop-fits zero system s = refl
  loop-fits (suc fuel) system s =
      ground (arith, round-fits system s, loop-fits fuel system (round h turn system s).1)

  close-pending :
      (system : Text) (e : Ending Obj) (s : State Obj W h) (p : PendingConfirmation (Option Obj))
      → (close_turn h turn system e s).0.pending_confirmation ≡ some p
      → (e ≡ confirm p)
  unfolding close_turn ship fixed_result
  close-pending system (drafted draft) s p q = grind arith
  close-pending system provider_down s p q = cc
  close-pending system clarify s p q = cc
  close-pending system (confirm c) s p q = cc
  close-pending system stopped s p q = cc

  -- Only a voice turn asks for a confirmation, and only of a tool that is one of the irreversible ones.
  pub run_turn-asks :
      (fuel : ℕ) (router : Router h.providers.P) (gate : Option h.gate.State) (world : W)
      (r : TurnResult Obj) (s : State Obj W h) (p : PendingConfirmation (Option Obj))
      → run_turn h fuel turn router gate world ≡ some (r, s)
      → r.pending_confirmation ≡ some p
      → (is_voice turn.session.mode ≡ true) × (member p.tool_name turn.write_scope_tools ≡ true)
  unfolding run_turn fits
  run_turn-asks fuel router gate world r s p e q = grind (
    arith,
    close-pending,
    loop-fits fuel (build_system_prompt h turn) (open_turn h turn router gate world),
  )
