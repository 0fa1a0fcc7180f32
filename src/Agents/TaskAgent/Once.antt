-- ===== src/Agents/TaskAgent/Once.antt =====
-- agents/task_agent.py with security/confirmation.py: one confirmation lets one irreversible tool run.
use sarvam.Prelude.{
  ℕ, zero, suc, ◌≤◌, ◌≡◌, inl, inr, refl, Bool, true, false, ◌&&◌, Option, none, some, String, List,
  [], ◌∷◌, Text, lookup, leb, Bool-cases, Option-cases, arith,
}
use sarvam.Agents.TaskAgent.{
  ToolFn, Host, Turn, TurnResult, State, Ending, member, clarify, stopped, provider_down,
}
use sarvam.Agents.TaskAgent.Calls.{
  tool_output, run_tool, redeem_confirmation, ask_confirmation, run_confirmed, run_call, run_calls,
}
use sarvam.Agents.TaskAgent.Consent.{run_turn-Consented}
use sarvam.Agents.TaskAgent.Loop.{
  dispatch, answer, round, turn_loop, push, is_cancelled, is_interrupted,
}
use sarvam.Agents.TaskAgent.Finish.{
  open_turn, forced_company_context, build_system_prompt, run_turn,
}
use sarvam.Agents.TaskAgent.Returns.{Same, close-Same}
use sarvam.LlmAdapter.Messages.{
  Message, ToolDefinition, Outcome, CompletionResult, ToolCall, ok, err,
}
use sarvam.LlmAdapter.Router.{Router, Done, attempt, complete_with_tools_and_fallback}
use sarvam.Supervisor.Session.{is_voice}
use sarvam.Agents.TaskAgent.Spent.{
  redemptions, irreversible_runs, runs-redemptions, Once, Once-later, Once-bound, redeem-trace,
  redeem-Once,
}

-- A search over providers none of which turns the clock back does not turn it back.
attempt-forward :
    {P W A : Type 0} (name : P → String) (clock : W → ℕ) (call : P → W → Outcome A × W)
    → ((p : P) (w : W) → clock w ≤ clock (call p w).1)
    → (ps : List P) (last : Option _) (r : Router P) (w : W)
    → clock w ≤ clock (attempt name clock call ps last r w).world
unfolding attempt
attempt-forward name clock call f [] none r w = omega arith
attempt-forward name clock call f [] (some e) r w = omega arith
attempt-forward name clock call f (p ∷ ps) last r w =
    grind (arith, f p w, attempt-forward name clock call f ps)

module _ {Obj W : Type 0} (h : Host Obj W) (turn : Turn Obj W)
    (calls_forward : (p : h.providers.P) (ms : List (Message Obj)) (system : Option Text)
        (ts : List (ToolDefinition Obj)) (w : W)
      → h.providers.clock w
        ≤ h.providers.clock (h.providers.complete_with_tools p ms system ts w).1)
    (tools_forward : (name : String) (f : ToolFn Obj W) (o : Obj) (w : W)
      → lookup name turn.tools ≡ some f
      → h.providers.clock w ≤ h.providers.clock (f o w).1) where
  -- A step keeps `Once` as long as the turn goes on, and never redeems twice.
  Held : Option (Ending Obj) × State Obj W h → Type 0
  Held p = (redemptions p.1.trace ≤ 1) × (p.0 ≡ none → Once h turn p.1)

  output_forward :
      (c : ToolCall Obj) (w : W)
      → h.providers.clock w ≤ h.providers.clock (tool_output h turn c w).1
  unfolding tool_output
  output_forward c w = elim (Option-cases (lookup {V = ToolFn Obj W} c.name turn.tools)) [
    | inl missing ↦ rw (missing, tool_output) (omega arith)
    | inr (f, given) ↦ rw (given, tool_output) (tools_forward c.name f _ w given)
  ]

  run_tool-Once :
      (native : Bool) (c : ToolCall Obj) (s : State Obj W h)
      → Once h turn s
      → Once h turn (run_tool h turn native c s)
  unfolding run_tool redemptions
  run_tool-Once native c s o =
      Once-later h turn s (run_tool h turn native c s) refl refl (output_forward c s.world) o

  -- A refused redemption and a new request leave the redemptions as they were.
  unasked :
      (c : ToolCall Obj) (s : State Obj W h)
      → (redeem_confirmation h turn c s).0 ≡ false
      → redemptions (ask_confirmation h c (redeem_confirmation h turn c s).1).1.trace
        ≡ redemptions s.trace
  unfolding ask_confirmation
  unasked c s refused = ground (arith, redeem-trace h turn c s)

  run_confirmed-Held :
      (native : Bool) (c : ToolCall Obj) (s : State Obj W h)
      → Once h turn s
      → Held (run_confirmed h turn native c s)
  unfolding Held run_confirmed
  run_confirmed-Held native c s o = elim (Bool-cases (redeem_confirmation h turn c s).0) [
    | inl done ↦
        let after =
          run_tool-Once native c (redeem_confirmation h turn c s).1
            (redeem-Once h turn c s o done) in
        rw (done, run_confirmed) (Once-bound h turn _ after, λ _. after)
    | inr refused ↦
        rw (refused, run_confirmed)
          (ground (arith, unasked c s refused, Once-bound h turn s o), λ e. cc)
  ]

  Held-none : (s : State Obj W h) → Once h turn s → Held (none, s)
  unfolding Held
  Held-none s o = (Once-bound h turn s o, λ _. o)

  Held-some : (e : Ending Obj) (s : State Obj W h) → Once h turn s → Held (some e, s)
  unfolding Held
  Held-some e s o = (Once-bound h turn s o, λ q. cc)

  run_call-Held :
      (native : Bool) (c : ToolCall Obj) (s : State Obj W h)
      → Once h turn s
      → Held (run_call h turn native c s)
  unfolding run_call
  run_call-Held native c s o = elim (Bool-cases (leb turn.max_tool_calls s.tool_call_count)) [
    | inl full ↦ rw (full, run_call) (Held-some clarify s o)
    | inr free ↦
        elim (Bool-cases (member c.name turn.write_scope_tools && is_voice turn.session.mode)) [
          | inl gated ↦ rw (free, gated, run_call) (run_confirmed-Held native c s o)
          | inr open_tool ↦
              rw (free, open_tool, run_call) (Held-none _ (run_tool-Once native c s o))
        ]
  ]

  -- A step, and what follows it if the turn goes on.
  Held-then :
      (p : Option (Ending Obj) × State Obj W h)
      (k : State Obj W h → Option (Ending Obj) × State Obj W h)
      → Held p
      → ((s : State Obj W h) → Once h turn s → Held (k s))
      → Held (elim p.0 [ some e ↦ (some e, p.1) | none ↦ k p.1 ])
  unfolding Held
  Held-then p k (bound, go) next = elim (Option-cases p.0) [
    | inl on ↦ rw on (next p.1 (go on))
    | inr (e, stop) ↦ rw stop (bound, λ q. cc)
  ]

  run_calls-Held :
      (native : Bool) (cs : List (ToolCall Obj)) (s : State Obj W h)
      → Once h turn s
      → Held (run_calls h turn native cs s)
  unfolding run_calls
  run_calls-Held native [] s o = Held-none s o
  run_calls-Held native (c ∷ cs) s o =
      Held-then (run_call h turn native c s) (run_calls h turn native cs)
        (run_call-Held native c s o) (run_calls-Held native cs)

  halt_or_go : State Obj W h → Option (Ending Obj) × State Obj W h
  halt_or_go s = elim (is_cancelled h turn s.world) [ true ↦ (some stopped, s) | false ↦ (none, s) ]

  halt_or_go-Held : (s : State Obj W h) → Once h turn s → Held (halt_or_go s)
  unfolding halt_or_go
  halt_or_go-Held s o = elim (Bool-cases (is_cancelled h turn s.world)) [
    | inl fired ↦ rw (fired, halt_or_go) (Held-some stopped s o)
    | inr quiet ↦ rw (quiet, halt_or_go) (Held-none s o)
  ]

  dispatch-Held :
      (native : Bool) (cs : List (ToolCall Obj)) (s : State Obj W h)
      → Once h turn s
      → Held (dispatch h turn native cs s)
  unfolding dispatch halt_or_go
  dispatch-Held native cs s o =
      Held-then (run_calls h turn native cs s) halt_or_go (run_calls-Held native cs s o)
        halt_or_go-Held

  push-Once : (m : Message Obj) (s : State Obj W h) → Once h turn s → Once h turn (push h m s)
  unfolding push
  push-Once m s o = Once-later h turn s (push h m s) refl refl (omega arith) o

  answer-Held :
      (o : Outcome (CompletionResult Obj)) (s : State Obj W h)
      → Once h turn s
      → Held (answer h turn o s)
  unfolding answer
  answer-Held (err e) s once = Held-some provider_down s once
  answer-Held (ok r) s once = grind (arith, dispatch-Held, push-Once, Held-some)

  abbrev asked : Text → State Obj W h → Done (Outcome (CompletionResult Obj)) h.providers.P W
  asked system s =
      complete_with_tools_and_fallback h.providers s.messages (some system) turn.tool_definitions
        s.router s.world

  asked-Once :
      (system : Text) (s : State Obj W h)
      → Once h turn s
      → Once h turn (record s { router = (asked system s).router; world = (asked system s).world })
  unfolding complete_with_tools_and_fallback
  asked-Once system s o =
      Once-later h turn s _ refl refl
        (attempt-forward _ _ _ (λ p w. calls_forward p _ _ _ w) _ none s.router s.world) o

  round-Held : (system : Text) (s : State Obj W h) → Once h turn s → Held (round h turn system s)
  unfolding round
  round-Held system s o = elim (Bool-cases (is_cancelled h turn s.world)) [
    | inl fired ↦ rw (fired, round) (Held-some stopped s o)
    | inr quiet ↦ elim (Bool-cases (is_interrupted h turn s.world (asked system s).world)) [
      | inl cut_off ↦ rw (quiet, cut_off, round) (Held-some stopped _ (asked-Once system s o))
      | inr through ↦ rw (quiet, through, round) (answer-Held _ _ (asked-Once system s o))
    ]
  ]

  loop-Held :
      (fuel : ℕ) (system : Text) (s : State Obj W h)
      → Once h turn s
      → Held (turn_loop h fuel turn system s)
  unfolding turn_loop
  loop-Held zero system s o = Held-none s o
  loop-Held (suc fuel) system s o =
      Held-then (round h turn system s) (turn_loop h fuel turn system) (round-Held system s o)
        (loop-Held fuel system)

  open-Once :
      (router : Router h.providers.P) (gate : Option h.gate.State) (world : W)
      → Once h turn (open_turn h turn router gate world)
  unfolding Once open_turn forced_company_context redemptions
  open-Once router gate world = inl (ground arith)

  run_turn-redemptions :
      (fuel : ℕ) (router : Router h.providers.P) (gate : Option h.gate.State) (world : W)
      (r : TurnResult Obj) (s : State Obj W h)
      → run_turn h fuel turn router gate world ≡ some (r, s)
      → redemptions s.trace ≤ 1
  unfolding run_turn Same Held
  run_turn-redemptions fuel router gate world r s e = grind (
    arith,
    close-Same h turn,
    loop-Held fuel (build_system_prompt h turn) (open_turn h turn router gate world)
        (open-Once router gate world),
  )

  -- In one voice turn at most one irreversible tool is run, however many the model asks for: the
  -- turn has one confirmation, which is spent when it is redeemed. Neither model calls nor tools may
  -- turn the clock back, and the tool that is run without being asked for by the model must not be
  -- one of the irreversible ones.
  pub run_turn-once :
      (fuel : ℕ) (router : Router h.providers.P) (gate : Option h.gate.State) (world : W)
      (r : TurnResult Obj) (s : State Obj W h)
      → is_voice turn.session.mode ≡ true
      → member "search_company_knowledge" turn.write_scope_tools ≡ false
      → run_turn h fuel turn router gate world ≡ some (r, s)
      → irreversible_runs turn.write_scope_tools s.trace ≤ 1
  run_turn-once fuel router gate world r s voice free e = omega (
    arith,
    runs-redemptions turn.write_scope_tools
        (run_turn-Consented h turn voice fuel router gate world r s free e),
    run_turn-redemptions fuel router gate world r s e,
  )
