-- ===== src/Agents/TaskAgent/Spent.antt =====
-- agents/task_agent.py with security/confirmation.py: a redeemed confirmation is spent.
use sarvam.Prelude.{
  ℕ, suc, ◌≤◌, ◌≡◌, ◌⊎◌, inl, inr, refl, true, false, none, some, String, List, [], ◌∷◌,
  Option-cases, arith, str_eq, eq_iff, if◌then◌else◌,
}
use sarvam.Agents.TaskAgent.{Host, Turn, Effect, ran, redeemed, State, member}
use sarvam.Agents.TaskAgent.Calls.{redeem_confirmation}
use sarvam.Agents.TaskAgent.Consent.{Consented, nothing, harmless, confirmed}
use sarvam.LlmAdapter.Messages.{ToolCall}

unfoldable pub redemptions : {Obj : Type 0} → List (Effect Obj) → ℕ
redemptions [] = 0
redemptions (ran n a ∷ t) = redemptions t
redemptions (redeemed n a ∷ t) = suc (redemptions t)

-- How many of the tools that were run are irreversible.
unfoldable pub irreversible_runs : {Obj : Type 0} → List String → List (Effect Obj) → ℕ
irreversible_runs names [] = 0
irreversible_runs names (ran n a ∷ t) =
    let rest = irreversible_runs names t in if member n names then suc rest else rest
irreversible_runs names (redeemed n a ∷ t) = irreversible_runs names t

pub runs-redemptions :
    {Obj : Type 0} (names : List String) {t : List (Effect Obj)}
    → Consented names t
    → irreversible_runs names t ≤ redemptions t
unfolding irreversible_runs redemptions
runs-redemptions names nothing = omega arith
runs-redemptions names (harmless n a t e c) = ground (arith, runs-redemptions names c)
runs-redemptions names (confirmed n a t c) = ground (arith, runs-redemptions names c)

module _ {Obj W : Type 0} (h : Host Obj W) (turn : Turn Obj W) where
  -- The turn's token, if it has one, can no longer be redeemed.
  unfoldable pub Spent : State Obj W h → Type 0
  Spent s =
      (token : String) (g : h.gate.State) (t : ℕ)
      → turn.confirmation_token ≡ some token
      → s.gate_state ≡ some g
      → h.providers.clock s.world ≤ t
      → h.gate.view g t token ≡ none

  unfoldable pub Once : State Obj W h → Type 0
  Once s = (redemptions s.trace ≡ 0) ⊎ ((redemptions s.trace ≡ 1) × Spent s)

  -- A later state with the same gate and the same redemptions.
  pub Once-later :
      (s s' : State Obj W h)
      → s'.gate_state ≡ s.gate_state
      → redemptions s'.trace ≡ redemptions s.trace
      → h.providers.clock s.world ≤ h.providers.clock s'.world
      → Once s
      → Once s'
  unfolding Once Spent
  Once-later s s' g r c (inl o) = inl (cc)
  Once-later s s' g r c (inr (o, spent)) =
      inr (cc, λ token k t e e' le. spent token k t e (cc) (omega arith))

  pub Once-bound : (s : State Obj W h) → Once s → redemptions s.trace ≤ 1
  unfolding Once
  Once-bound s (inl o) = omega arith
  Once-bound s (inr (o, p)) = omega arith

  self_eq : (t : String) → str_eq t t ≡ true
  self_eq t = (eq_iff t t).1 refl

  -- A token that is spent cannot be redeemed, and a token that was redeemed is spent.
  redeem-Spent :
      (c : ToolCall Obj) (s : State Obj W h) → Spent s → (redeem_confirmation h turn c s).0 ≡ false
  unfolding redeem_confirmation Spent
  redeem-Spent c s spent = elim (Option-cases turn.confirmation_token) [
    | inl missing ↦ rw (missing, redeem_confirmation)
    | inr (token, given) ↦ elim (Option-cases s.gate_state) [
      | inl missing ↦ rw (given, missing, redeem_confirmation)
      | inr (g, some_gate) ↦ rw (
        given,
        some_gate,
        redeem_confirmation,
        h.gate.consume-result,
        spent token g (h.providers.clock s.world) given some_gate (omega arith),
      )
    ]
  ]

  -- What redeeming a given token at a given gate comes to.
  redeem-given :
      (c : ToolCall Obj) (s : State Obj W h) (token : String) (g : h.gate.State)
      → turn.confirmation_token ≡ some token
      → s.gate_state ≡ some g
      → ((redeem_confirmation h turn c s).0
          ≡ (h.gate.consume token c.name c.args (h.providers.clock s.world) g).1)
        × ((redeem_confirmation h turn c s).1.gate_state
            ≡ some (h.gate.consume token c.name c.args (h.providers.clock s.world) g).0)
        × ((redeem_confirmation h turn c s).1.world ≡ s.world)
  unfolding redeem_confirmation
  redeem-given c s token g given at_gate = (
    rw (given, at_gate, redeem_confirmation),
    rw (given, at_gate, redeem_confirmation),
    rw (given, at_gate, redeem_confirmation),
  )

  redeem-gateless :
      (c : ToolCall Obj) (s : State Obj W h) (token : String)
      → turn.confirmation_token ≡ some token
      → s.gate_state ≡ none
      → (redeem_confirmation h turn c s).0 ≡ false
  unfolding redeem_confirmation
  redeem-gateless c s token given missing = rw (given, missing, redeem_confirmation)

  Spent-redeem :
      (c : ToolCall Obj) (s : State Obj W h)
      → (redeem_confirmation h turn c s).0 ≡ true
      → Spent (redeem_confirmation h turn c s).1
  unfolding Spent
  Spent-redeem c s done token k t given e le = elim (Option-cases s.gate_state) [
    | inl missing ↦ absurd (cc (done, redeem-gateless c s token given missing))
    | inr (g, at_gate) ↦
        let (result, gate, world) = redeem-given c s token g given at_gate in
        let was : (h.gate.consume token c.name c.args (h.providers.clock s.world) g).1 ≡ true =
          cc in
        let same : k ≡ (h.gate.consume token c.name c.args (h.providers.clock s.world) g).0 = cc in
        rw (
          same,
          h.gate.view-consume token c.name c.args (h.providers.clock s.world) t g token
              (rw world at le),
          was,
          self_eq token,
        )
  ]

  pub redeem-trace :
      (c : ToolCall Obj) (s : State Obj W h)
      → redemptions (redeem_confirmation h turn c s).1.trace ≡ (
          if (redeem_confirmation h turn c s).0
          then suc (redemptions s.trace)
          else redemptions s.trace)
  unfolding redeem_confirmation redemptions
  redeem-trace c s = ground arith

  pub redeem-Once :
      (c : ToolCall Obj) (s : State Obj W h)
      → Once s
      → (redeem_confirmation h turn c s).0 ≡ true
      → Once (redeem_confirmation h turn c s).1
  unfolding Once
  redeem-Once c s (inl o) done = inr (ground (arith, redeem-trace c s), Spent-redeem c s done)
  redeem-Once c s (inr (o, spent)) done = absurd (cc (done, redeem-Spent c s spent))
