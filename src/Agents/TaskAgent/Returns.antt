-- ===== src/Agents/TaskAgent/Returns.antt =====
-- agents/task_agent.py: what holds of every result of `run_turn`.
use sarvam.Prelude.{ℕ, suc, ◌≤◌, ◌≡◌, refl, Option, some, Text, arith, max}
use sarvam.Agents.TaskAgent.{
  Host, Turn, TurnResult, State, Ending, drafted, provider_down, clarify, confirm, stopped,
}
use sarvam.Agents.TaskAgent.Loop.{turn_loop, push}
use sarvam.Agents.TaskAgent.Finish.{
  check, review, correct, settle, forced_company_context, open_turn, build_system_prompt,
  fixed_result, ship, close_turn, run_turn,
}
use sarvam.Agents.TaskAgent.Budget.{runs, Counts, loop-Counts, Ends, turn_loop-Ends}
use sarvam.LlmAdapter.Router.{Router}

module _ {Obj W : Type 0} (h : Host Obj W) (turn : Turn Obj W) where
  -- Two states with the same counter and the same trace.
  unfoldable pub Same : State Obj W h → State Obj W h → Type 0
  Same s s' = (s'.tool_call_count ≡ s.tool_call_count) × (s'.trace ≡ s.trace)

  check-Same : (draft : Text) (s : State Obj W h) → Same s (check h turn draft s).1
  unfolding Same check
  check-Same draft s = ground arith

  review-Same : (draft : Text) (s : State Obj W h) → Same s (review h turn draft s).1
  unfolding Same review
  review-Same draft s = ground (arith, check-Same draft s)

  correct-Same :
      (system draft reason : Text) (s : State Obj W h)
      → Same s (correct h turn system draft reason s).1
  unfolding Same correct push
  correct-Same system draft reason s = grind (arith, check-Same)

  settle-Same : (system draft : Text) (s : State Obj W h) → Same s (settle h turn system draft s).1
  unfolding Same settle
  settle-Same system draft s = grind (arith, review-Same, correct-Same)

  pub close-Same :
      (system : Text) (e : Ending Obj) (s : State Obj W h)
      → Same s (close_turn h turn system e s).1
        × ((close_turn h turn system e s).0.tool_call_count ≡ s.tool_call_count)
  unfolding Same close_turn ship fixed_result
  close-Same system (drafted draft) s = grind (arith, settle-Same)
  close-Same system provider_down s = ((refl, refl), refl)
  close-Same system clarify s = ((refl, refl), refl)
  close-Same system (confirm p) s = ((refl, refl), refl)
  close-Same system stopped s = ((refl, refl), refl)

  open-Counts :
      (router : Router h.providers.P) (gate : Option h.gate.State) (world : W)
      → ((open_turn h turn router gate world).tool_call_count ≤ 1)
        × (runs (open_turn h turn router gate world).trace ≤ 1)
  unfolding open_turn forced_company_context runs
  open-Counts router gate world = ground arith

  -- `run_turn` returns: with one round more than the tool budget there is a result.
  pub run_turn-returns :
      (router : Router h.providers.P) (gate : Option h.gate.State) (world : W)
      → (r : TurnResult Obj × State Obj W h) × (run_turn h
            (suc turn.max_tool_calls)
            turn
            router
            gate
            world
          ≡ some r)
  unfolding run_turn Ends
  run_turn-returns router gate world =
      let system = build_system_prompt h turn in
      let s = open_turn h turn router gate world in
      let (e, p) = turn_loop-Ends h turn turn.max_tool_calls system s (omega arith) in
      (
        close_turn h turn system e (turn_loop h (suc turn.max_tool_calls) turn system s).1,
        rw (p, run_turn),
      )

  -- The tool budget: a result counts at most `max_tool_calls` tool calls, or one where the budget is
  -- nothing and the retrieval that does not wait for the model found something. At most one tool more
  -- was run than is counted, the retrieval that found nothing.
  pub run_turn-budget :
      (fuel : ℕ) (router : Router h.providers.P) (gate : Option h.gate.State) (world : W)
      (r : TurnResult Obj) (s : State Obj W h)
      → run_turn h fuel turn router gate world ≡ some (r, s)
      → (r.tool_call_count ≤ max 1 turn.max_tool_calls) × (runs s.trace ≤ suc r.tool_call_count)
  unfolding run_turn Counts Same
  run_turn-budget fuel router gate world r s e = grind (
    arith,
    open-Counts router gate world,
    loop-Counts h turn fuel (build_system_prompt h turn) (open_turn h turn router gate world),
    close-Same,
  )
