-- ===== src/Agents/TaskAgent/Budget.antt =====
-- agents/task_agent.py: the tool budget and the end of the reasoning loop.
use sarvam.Prelude.{
  ℕ, zero, suc, ◌+◌, ◌≤◌, ◌<◌, ◌≡◌, Bool, Option, none, some, List, [], ◌∷◌, Text, Option-cases,
  arith, max, inl, inr,
}
use sarvam.Agents.TaskAgent.{Host, Turn, Effect, ran, redeemed, State, Ending}
use sarvam.Agents.TaskAgent.Calls.{
  run_tool, redeem_confirmation, ask_confirmation, run_confirmed, run_call, run_calls,
}
use sarvam.Agents.TaskAgent.Loop.{dispatch, answer, round, turn_loop, push}
use sarvam.LlmAdapter.Messages.{Outcome, CompletionResult, ToolCall, ok, err}

unfoldable pub runs : {Obj : Type 0} → List (Effect Obj) → ℕ
runs [] = 0
runs (ran n a ∷ t) = suc (runs t)
runs (redeemed n a ∷ t) = runs t

module _ {Obj W : Type 0} (h : Host Obj W) (turn : Turn Obj W) where
  -- Between two states the counter went up by the number of tools run, and stayed within the budget
  -- if it went up at all.
  unfoldable pub Counts : State Obj W h → State Obj W h → Type 0
  Counts s s' =
      (runs s'.trace + s.tool_call_count ≡ runs s.trace + s'.tool_call_count)
      × (s.tool_call_count ≤ s'.tool_call_count)
      × (s'.tool_call_count ≤ max s.tool_call_count turn.max_tool_calls)

  Counts-refl : (s : State Obj W h) → Counts s s
  unfolding Counts
  Counts-refl s = ground arith

  redeem-Counts :
      (c : ToolCall Obj) (s : State Obj W h)
      → ((redeem_confirmation h turn c s).1.tool_call_count ≡ s.tool_call_count)
        × (runs (redeem_confirmation h turn c s).1.trace ≡ runs s.trace)
  unfolding redeem_confirmation runs
  redeem-Counts c s = ground arith

  asked-Counts :
      (c : ToolCall Obj) (s : State Obj W h)
      → ((ask_confirmation h c s).1.tool_call_count ≡ s.tool_call_count)
        × ((ask_confirmation h c s).1.trace ≡ s.trace)
  unfolding ask_confirmation
  asked-Counts c s = ground arith

  -- What a step of the loop does: it counts, and where the turn goes on it has run a tool within the
  -- budget.
  Advances : State Obj W h → Option (Ending Obj) × State Obj W h → Type 0
  Advances s p =
      Counts s p.1
      × (p.0 ≡ none
          → (s.tool_call_count < p.1.tool_call_count) × (p.1.tool_call_count ≤ turn.max_tool_calls))

  confirmed-Counts :
      (native : Bool) (c : ToolCall Obj) (s : State Obj W h)
      → s.tool_call_count < turn.max_tool_calls
      → Advances s (run_confirmed h turn native c s)
  unfolding Advances Counts run_confirmed run_tool runs
  confirmed-Counts native c s lt =
      ground (arith, redeem-Counts c s, asked-Counts c (redeem_confirmation h turn c s).1)

  run_call-Advances :
      (native : Bool) (c : ToolCall Obj) (s : State Obj W h)
      → Advances s (run_call h turn native c s)
  unfolding run_call run_tool runs Advances Counts
  run_call-Advances native c s = ground (arith, confirmed-Counts native c s)

  Counts-trans : (a b c : State Obj W h) → Counts a b → Counts b c → Counts a c
  unfolding Counts
  Counts-trans a b c h k = omega arith

  run_calls-Counts :
      (native : Bool) (cs : List (ToolCall Obj)) (s : State Obj W h)
      → Counts s (run_calls h turn native cs s).1
  unfolding run_calls Advances Counts
  run_calls-Counts native [] s = ground arith
  run_calls-Counts native (c ∷ cs) s = ground (
    arith,
    run_call-Advances native c s,
    run_calls-Counts native cs (run_call h turn native c s).1,
  )

  run_calls-Advances :
      (native : Bool) (c : ToolCall Obj) (cs : List (ToolCall Obj)) (s : State Obj W h)
      → Advances s (run_calls h turn native (c ∷ cs) s)
  unfolding run_calls Advances Counts
  run_calls-Advances native c cs s = ground (
    arith,
    run_call-Advances native c s,
    run_calls-Counts native cs (run_call h turn native c s).1,
  )

  dispatch-Advances :
      (native : Bool) (c : ToolCall Obj) (cs : List (ToolCall Obj)) (s : State Obj W h)
      → Advances s (dispatch h turn native (c ∷ cs) s)
  unfolding dispatch Advances Counts
  dispatch-Advances native c cs s = ground (arith, run_calls-Advances native c cs s)

  answer-Advances :
      (o : Outcome (CompletionResult Obj)) (s : State Obj W h) → Advances s (answer h turn o s)
  unfolding answer Advances Counts push
  answer-Advances (err e) s = ground arith
  answer-Advances (ok r) s = grind (arith, dispatch-Advances)

  round-Advances : (system : Text) (s : State Obj W h) → Advances s (round h turn system s)
  unfolding round Advances Counts
  round-Advances system s = grind (arith, answer-Advances)

  pub loop-Counts :
      (fuel : ℕ) (system : Text) (s : State Obj W h) → Counts s (turn_loop h fuel turn system s).1
  unfolding turn_loop Advances Counts
  loop-Counts zero system s = ground arith
  loop-Counts (suc fuel) system s =
      ground (arith, round-Advances system s, loop-Counts fuel system (round h turn system s).1)

  unfoldable pub Ends : ℕ → Text → State Obj W h → Type 0
  Ends fuel system s = (e : Ending Obj) × ((turn_loop h fuel turn system s).0 ≡ some e)

  Ends-suc :
      (fuel : ℕ) (system : Text) (s : State Obj W h)
      → ((round h turn system s).0 ≡ none → Ends fuel system (round h turn system s).1)
      → Ends (suc fuel) system s
  unfolding Ends turn_loop
  Ends-suc fuel system s next = elim (Option-cases (round h turn system s).0) [
    | inl stop ↦ (let (e, p) = next stop in (e, rw (stop, turn_loop) p))
    | inr (e, p) ↦ (e, rw (p, turn_loop))
  ]

  -- A round that goes on uses up one call of the budget, so this fuel is enough.
  pub turn_loop-Ends :
      (fuel : ℕ) (system : Text) (s : State Obj W h)
      → turn.max_tool_calls ≤ fuel + s.tool_call_count
      → Ends (suc fuel) system s
  unfolding Advances Counts
  turn_loop-Ends zero system s le =
      Ends-suc zero system s (λ stop. ground (arith, round-Advances system s))
  turn_loop-Ends (suc fuel) system s le = Ends-suc (suc fuel) system s (λ stop.
      turn_loop-Ends fuel system (round h turn system s).1
        (ground (arith, round-Advances system s)))
