-- ===== src/Supervisor/Graph/History.antt =====
-- What a turn leaves in the history of its thread.
use sarvam.Prelude.{
  Text, codes, ltb, ℕ, suc, zero, ◌-◌, ◌≤◌, ◌≡◌, ◌⊎◌, inl, inr, refl, true, false, Option, none,
  some, List, [], ◌∷◌, ◌++◌, length, take_last, length-take_last, arith, Bool-cases, if◌then◌else◌,
  is_empty, drop, length-append,
}
use sarvam.Agents.TaskAgent.{Host, TurnResult, State}
use sarvam.Agents.TaskAgent.Returns.{run_turn-returns}
use sarvam.LlmAdapter.Messages.{user, assistant}
use sarvam.LlmAdapter.Router.{Router}
use sarvam.Security.OutputValidation.{tool_verified_marker}
use sarvam.Supervisor.Graph.{
  GraphState, GraphConfig, max_history_messages, history_text, new_history, write_result, turn_of,
  task_agent_node,
}

drop-append {ℓ} :
    {A : Type ℓ} (k : ℕ) (xs ys : List A) → k ≤ length xs → drop k (xs ++ ys) ≡ drop k xs ++ ys
drop-append k [] ys h = let e : k ≡ 0 = omega arith in rw e
drop-append zero (x ∷ xs) ys h = refl
drop-append (suc k) (x ∷ xs) ys h = drop-append k xs ys (omega arith)

take_last-append {ℓ} :
    {A : Type ℓ} (n : ℕ) (xs ys : List A)
    → length ys ≤ n
    → take_last n (xs ++ ys) ≡ take_last (n - length ys) xs ++ ys
take_last-append n xs ys h =
    let e : length (xs ++ ys) - n ≡ length xs - (n - length ys) =
      omega (arith, length-append xs ys) in
    rw e (drop-append (length xs - (n - length ys)) xs ys (omega arith))

-- The reply as the history keeps it: marked where the turn called a tool.
abbrev pub marked : {Obj : Type 0} → GraphState Obj → Text
marked s =
    if ltb 0 s.tool_call_count
    then s.response ++ (codes "\n" ++ tool_verified_marker)
    else s.response

-- The history after a turn with a result.
Continues : {Obj : Type 0} → GraphState Obj → GraphState Obj → Type 0
Continues {Obj} s s' =
    (length s'.history ≤ max_history_messages)
    × ((s'.error ≡ true) × (s'.history ≡ take_last max_history_messages s.history)
        ⊎ (s'.error ≡ false)
          × (s'.history
              ≡ take_last 18 s.history ++ (user s.user_message ∷ assistant (marked s') ∷ [])))

write_result-Continues :
    {Obj : Type 0} (s : GraphState Obj) (r : TurnResult Obj) → Continues s (write_result s r)
unfolding Continues write_result new_history history_text
write_result-Continues s r = elim (Bool-cases r.error) [
  | inl e ↦ (omega (arith, length-take_last 20 (new_history s r)), inl (e, rw e))
  | inr e ↦ (
    omega (arith, length-take_last 20 (new_history s r)),
    inr (
      e,
      rw e (
          take_last-append 20 s.history (user s.user_message ∷ assistant (history_text r) ∷ [])
            (omega arith)),
    ),
  )
]

module _ {Obj W : Type 0} (h : Host Obj W) (config : GraphConfig Obj W) where
  -- A turn of the graph ends, and the history that it leaves has at most 20 messages: where every
  -- provider failed, the last of those that were there; else the last 18 of those, the user's message
  -- as it was written, and the reply, with the marker where the turn called a tool.
  pub task_agent_node-history :
      (s : GraphState Obj) (router : Router h.providers.P) (gate : h.gate.State) (world : W)
      → (s' : GraphState Obj) × (st : State Obj W h) × (task_agent_node h config s router gate world
          ≡ some (s', st))
        × (length s'.history ≤ 20)
        × ((s'.error ≡ true) × (s'.history ≡ take_last 20 s.history)
            ⊎ (s'.error ≡ false)
              × (s'.history
                  ≡ take_last 18 s.history ++ (user s.user_message ∷ assistant (marked s') ∷ [])))
  unfolding task_agent_node Continues
  task_agent_node-history s router gate world =
      let gate' : Option h.gate.State =
        if is_empty config.write_scope_tools then none else some gate in
      let (r, e) = run_turn-returns h (turn_of h config s) router gate' world in
      let (bound, kept) = write_result-Continues s r.0 in
      (write_result s r.0, r.1, rw (e, task_agent_node), bound, kept)
