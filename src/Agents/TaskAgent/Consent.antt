-- ===== src/Agents/TaskAgent/Consent.antt =====
-- agents/task_agent.py: in a voice turn no irreversible tool is run without a confirmation.
use sarvam.Prelude.{
  ℕ, zero, suc, ◌≡◌, Bool, true, false, Option, some, String, List, [], ◌∷◌, Text, Option-cases,
  arith, inl, inr, ◌⊎◌,
}
use sarvam.Agents.TaskAgent.{Host, Turn, TurnResult, Effect, ran, redeemed, State, member}
use sarvam.Agents.TaskAgent.Calls.{
  run_tool, redeem_confirmation, ask_confirmation, run_confirmed, run_call, run_calls,
}
use sarvam.Agents.TaskAgent.Loop.{dispatch, answer, round, turn_loop, push}
use sarvam.Agents.TaskAgent.Finish.{
  open_turn, forced_company_context, build_system_prompt, run_turn,
}
use sarvam.Agents.TaskAgent.Returns.{Same, close-Same}
use sarvam.LlmAdapter.Messages.{Outcome, CompletionResult, ToolCall, ok, err}
use sarvam.LlmAdapter.Router.{Router}
use sarvam.Supervisor.Session.{is_voice}

-- In a trace, the latest effect first, each run of an irreversible tool comes right after the
-- redemption of a confirmation of that tool and those arguments, which no other run uses.
pub data Consented {Obj : Type 0} (irreversible : List String) : List (Effect Obj) → Type 0 where
  nothing : Consented irreversible []
  harmless :
      (n : String) (a : Option Obj) (t : List (Effect Obj))
      → member n irreversible ≡ false
      → Consented irreversible t
      → Consented irreversible (ran n a ∷ t)
  confirmed :
      (n : String) (a : Option Obj) (t : List (Effect Obj))
      → Consented irreversible t
      → Consented irreversible (ran n a ∷ redeemed n a ∷ t)

module _ {Obj W : Type 0} (h : Host Obj W) (turn : Turn Obj W)
    (voice : is_voice turn.session.mode ≡ true) where
  Kept : State Obj W h → Type 0
  Kept s = Consented turn.write_scope_tools s.trace

  -- A confirmation that was redeemed is on the trace, one that was not leaves the trace alone.
  redeem-trace :
      (c : ToolCall Obj) (s : State Obj W h)
      → (((redeem_confirmation h turn c s).0 ≡ true)
          × ((redeem_confirmation h turn c s).1.trace ≡ redeemed c.name c.args ∷ s.trace))
        ⊎ (((redeem_confirmation h turn c s).0 ≡ false)
            × ((redeem_confirmation h turn c s).1.trace ≡ s.trace))
  unfolding redeem_confirmation
  redeem-trace c s = ground arith

  asked-trace : (c : ToolCall Obj) (s : State Obj W h) → (ask_confirmation h c s).1.trace ≡ s.trace
  unfolding ask_confirmation
  asked-trace c s = ground arith

  confirmed-Kept :
      (native : Bool) (c : ToolCall Obj) (s : State Obj W h)
      → Kept s
      → Kept (run_confirmed h turn native c s).1
  unfolding Kept run_confirmed run_tool
  confirmed-Kept native c s k = elim (redeem-trace c s) [
    | inl (y, t) ↦ rw (y, t, run_confirmed) (Consented.confirmed c.name c.args s.trace k)
    | inr (n, t) ↦ rw (n, asked-trace c (redeem_confirmation h turn c s).1, t, run_confirmed) k
  ]

  run_call-Kept :
      (native : Bool) (c : ToolCall Obj) (s : State Obj W h)
      → Kept s
      → Kept (run_call h turn native c s).1
  unfolding Kept run_call run_tool
  run_call-Kept native c s k = grind (arith, confirmed-Kept, harmless)

  run_calls-Kept :
      (native : Bool) (cs : List (ToolCall Obj)) (s : State Obj W h)
      → Kept s
      → Kept (run_calls h turn native cs s).1
  unfolding run_calls Kept
  run_calls-Kept native [] s k = k
  run_calls-Kept native (c ∷ cs) s k = elim (Option-cases (run_call h turn native c s).0) [
    | inl go ↦
        rw (go, run_calls)
          (run_calls-Kept native cs (run_call h turn native c s).1 (run_call-Kept native c s k))
    | inr (e, stop) ↦ rw (stop, run_calls) (run_call-Kept native c s k)
  ]

  dispatch-Kept :
      (native : Bool) (cs : List (ToolCall Obj)) (s : State Obj W h)
      → Kept s
      → Kept (dispatch h turn native cs s).1
  unfolding dispatch Kept
  dispatch-Kept native cs s k = grind (arith, run_calls-Kept native cs s k)

  answer-Kept :
      (o : Outcome (CompletionResult Obj)) (s : State Obj W h) → Kept s → Kept (answer h turn o s).1
  unfolding answer Kept push
  answer-Kept (err e) s k = k
  answer-Kept (ok r) s k = grind (arith, dispatch-Kept)

  round-Kept : (system : Text) (s : State Obj W h) → Kept s → Kept (round h turn system s).1
  unfolding round Kept
  round-Kept system s k = grind (arith, answer-Kept)

  loop-Kept :
      (fuel : ℕ) (system : Text) (s : State Obj W h)
      → Kept s
      → Kept (turn_loop h fuel turn system s).1
  unfolding turn_loop Kept
  loop-Kept zero system s k = k
  loop-Kept (suc fuel) system s k = elim (Option-cases (round h turn system s).0) [
    | inl go ↦
        rw (go, turn_loop) (loop-Kept fuel system (round h turn system s).1 (round-Kept system s k))
    | inr (e, stop) ↦ rw (stop, turn_loop) (round-Kept system s k)
  ]

  open-Kept :
      (router : Router h.providers.P) (gate : Option h.gate.State) (world : W)
      → member "search_company_knowledge" turn.write_scope_tools ≡ false
      → Kept (open_turn h turn router gate world)
  unfolding Kept open_turn forced_company_context
  open-Kept router gate world free = grind (arith, harmless, nothing)

  -- In a voice turn an irreversible tool is run only right after the confirmation of this tool with
  -- these arguments was redeemed, one redemption for each run. The tool that is run without being
  -- asked for by the model must not be one of the irreversible ones.
  pub run_turn-Consented :
      (fuel : ℕ) (router : Router h.providers.P) (gate : Option h.gate.State) (world : W)
      (r : TurnResult Obj) (s : State Obj W h)
      → member "search_company_knowledge" turn.write_scope_tools ≡ false
      → run_turn h fuel turn router gate world ≡ some (r, s)
      → Consented turn.write_scope_tools s.trace
  unfolding run_turn Same Kept
  run_turn-Consented fuel router gate world r s free e = grind (
    arith,
    close-Same h turn,
    loop-Kept fuel (build_system_prompt h turn) (open_turn h turn router gate world)
        (open-Kept router gate world free),
  )
