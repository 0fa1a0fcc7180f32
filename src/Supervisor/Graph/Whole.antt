-- ===== src/Supervisor/Graph/Whole.antt =====
-- One run of the text graph, from the user's message to the answer.
use sarvam.Prelude.{
  ◌≤◌, ◌<◌, ◌≡◌, ◌⊎◌, inl, inr, refl, Option, some, String, length, arith, ltb, Bool-cases,
}
use sarvam.Agents.Language.Detect.{
  Verdicts, LanguageDetectionResult, detect_language, is_low_confidence,
}
use sarvam.Agents.TaskAgent.{Host, clarifying_question}
use sarvam.LlmAdapter.Router.{Router}
use sarvam.Supervisor.Graph.{
  router_or, GraphState, GraphConfig, GraphEnd, route_after_language, language_agent_node,
  clarify_node, run_graph,
}
use sarvam.Supervisor.Graph.History.{task_agent_node-history}

module _ {Obj W : Type 0} (h : Host Obj W) (v : Verdicts Obj) (config : GraphConfig Obj W) where
  abbrev pub detected :
      Option String
      → GraphState Obj
      → Router h.providers.P
      → W
      → LanguageDetectionResult × (Option (Router h.providers.P)) × W
  detected hint s router w =
      detect_language h.unicode v h.providers s.user_message hint (some router) w

  -- A run of the graph ends. Where the language was detected with a confidence below 0.5 it asks
  -- back: the answer is the clarifying question, no tool was called, the gate is as it was, and so
  -- is the history; and no model was called after the detection. Else the history has at most 20
  -- messages.
  pub run_graph-ends :
      (hint : Option String) (s : GraphState Obj) (router : Router h.providers.P)
      (gate : h.gate.State) (w : W)
      → (e : GraphEnd Obj W h) × (run_graph h v config hint s router gate w ≡ some e)
        × (((detected hint s router w).0.confidence < 50)
              × (e.state.response ≡ clarifying_question)
              × (e.state.tool_call_count ≡ 0)
              × (e.gate ≡ gate)
              × (e.state.history ≡ s.history)
              × (e.world ≡ (detected hint s router w).2)
            ⊎ (50 ≤ (detected hint s router w).0.confidence) × (length e.state.history ≤ 20))
  unfolding run_graph language_agent_node clarify_node route_after_language is_low_confidence
  run_graph-ends hint s router gate w =
      elim (Bool-cases (ltb (detected hint s router w).0.confidence 50)) [
        | inl low ↦ rw (low, run_graph) (_, refl, inl (ground arith, refl, refl, refl, refl, refl))
        | inr high ↦
            let (s', st, e, bound, kept) =
              task_agent_node-history h config (language_agent_node h v config hint s router w).0
                (router_or h v config router (detected hint s router w).1) gate
                (detected hint s router w).2 in
            rw (high, e, run_graph) (_, refl, inr (ground arith, bound))
      ]
