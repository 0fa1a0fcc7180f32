-- ===== src/Supervisor/Graph.antt =====
-- supervisor/graph.py: the text graph, with agents/translation_policy.py.
--
-- The graph's state is what the checkpointer keeps for a thread; a field that no node has written yet
-- has its default.
pub mod Whole
pub mod History
mod Examples
use sarvam.Prelude.{
  ◌||◌, any, str_eq, ℕ, zero, suc, ◌+◌, Bool, true, false, Option, none, some, List, [], ◌∷◌, ◌++◌,
  String, Text, codes, Dict, length, take_last, ltb, is_empty, if◌then◌else◌,
}
use sarvam.Agents.Language.Detect.{is_low_confidence, Verdicts, detect_language}
use sarvam.Agents.TaskAgent.{ToolFn, Host, Turn, TurnResult, State, clarifying_question}
use sarvam.Agents.TaskAgent.Finish.{run_turn}
use sarvam.LlmAdapter.Messages.{Message, user, assistant, ToolDefinition}
use sarvam.LlmAdapter.Router.{Router}
use sarvam.Security.Confirmation.{PendingConfirmation}
use sarvam.Security.OutputValidation.{tool_verified_marker}
use sarvam.Supervisor.Session.{SessionState}

abbrev pub max_history_messages : ℕ
max_history_messages = 20

pub record GraphState (Obj : Type 0) : Type 0 where
  pub session : SessionState
  pub user_message : Text
  pub confirmation_token : Option String
  pub response : Text
  pub prompt_version : Text
  pub tool_call_count : ℕ
  pub self_check_ok : Bool
  pub pending_confirmation : Option (PendingConfirmation (Option Obj))
  pub error : Bool
  pub history : List (Message Obj)

-- What `build_text_graph` is given.
pub record GraphConfig (Obj W : Type 0) : Type 0 where
  pub tools : Dict (ToolFn Obj W)
  pub tool_definitions : List (ToolDefinition Obj)
  pub tool_manifest : Text
  pub write_scope_tools : List String
  pub max_tool_calls : ℕ

pub data Node : Type 0 where
  clarify task_agent : Node

unfoldable pub route_after_language : {Obj : Type 0} → GraphState Obj → Node
unfolding is_low_confidence
route_after_language s =
    if is_low_confidence s.session.language_confidence then Node.clarify else Node.task_agent

unfoldable pub clarify_node : {Obj : Type 0} → GraphState Obj → GraphState Obj
clarify_node s = record s {
  response = clarifying_question;
  prompt_version = codes "low_confidence_clarify";
  tool_call_count = 0;
  self_check_ok = true;
}

unfoldable pub history_text : {Obj : Type 0} → TurnResult Obj → Text
history_text r =
    if ltb 0 r.tool_call_count then r.text ++ (codes "\n" ++ tool_verified_marker) else r.text

unfoldable pub new_history : {Obj : Type 0} → GraphState Obj → TurnResult Obj → List (Message Obj)
unfolding history_text
new_history s r =
    if r.error
    then s.history
    else s.history ++ (user s.user_message ∷ assistant (history_text r) ∷ [])

unfoldable pub write_result : {Obj : Type 0} → GraphState Obj → TurnResult Obj → GraphState Obj
unfolding new_history
write_result s r = record s {
  response = r.text;
  prompt_version = r.prompt_version;
  tool_call_count = r.tool_call_count;
  self_check_ok = r.self_check_ok;
  pending_confirmation = r.pending_confirmation;
  history = take_last max_history_messages (new_history s r);
  error = r.error;
}

module _ {Obj W : Type 0} (h : Host Obj W) (config : GraphConfig Obj W) where
  unfoldable pub turn_of : GraphState Obj → Turn Obj W
  turn_of s = record {
    session = s.session;
    user_message = s.user_message;
    tools = config.tools;
    tool_definitions = config.tool_definitions;
    max_tool_calls = config.max_tool_calls;
    prompt_version = codes "v1";
    cancellation_token = none;
    write_scope_tools = config.write_scope_tools;
    confirmation_token = s.confirmation_token;
    tool_manifest = config.tool_manifest;
    history = s.history;
  }

  -- The gate is there where there are irreversible tools. The round after the last allowed call is
  -- the last one.
  unfoldable pub task_agent_node :
      GraphState Obj
      → Router h.providers.P
      → h.gate.State
      → W
      → Option (GraphState Obj × State Obj W h)
  unfolding turn_of write_result
  task_agent_node s router gate world =
      let gate' : Option h.gate.State =
        if is_empty config.write_scope_tools then none else some gate in
      elim (run_turn h (suc config.max_tool_calls) (turn_of s) router gate' world) [
        | none ↦ none
        | some d ↦ some (write_result s d.0, d.1)
      ]

-- `decide_translation` with its default arguments: no language is in the set of those that need it.
unfoldable pub decide_translation : Bool → List String → String → Bool
decide_translation tool_requires_english not_natively_supported language =
    tool_requires_english || any (λ l. str_eq l language) not_natively_supported

-- What a run of the graph leaves: its state, and the router, the gate and the world that it worked on.
pub record GraphEnd (Obj W : Type 0) (h : Host Obj W) : Type 0 where
  pub state : GraphState Obj
  pub router : Router h.providers.P
  pub gate : h.gate.State
  pub world : W

module _ {Obj W : Type 0} (h : Host Obj W) (v : Verdicts Obj) (config : GraphConfig Obj W) where
  unfoldable pub language_agent_node :
      Option String
      → GraphState Obj
      → Router h.providers.P
      → W
      → GraphState Obj × (Option (Router h.providers.P)) × W
  unfolding decide_translation
  language_agent_node hint s router w =
      let found = detect_language h.unicode v h.providers s.user_message hint (some router) w in
      let session = record (s.session) {
        response_language = some found.0.language;
        language_confidence = some found.0.confidence;
        is_code_mixed = found.0.is_code_mixed;
        translation_applied = decide_translation false [] found.0.language;
      } in
      (record s { session = session }, found.1, found.2)

  abbrev pub router_or : Router h.providers.P → Option (Router h.providers.P) → Router h.providers.P
  router_or r none = r
  router_or r (some r') = r'

  -- The compiled graph with one router for both agents: the entry node, the route, and the node that
  -- it leads to. The gate is the graph's; a turn without irreversible tools is given none.
  unfoldable pub run_graph :
      Option String
      → GraphState Obj
      → Router h.providers.P
      → h.gate.State
      → W
      → Option (GraphEnd Obj W h)
  run_graph hint s router gate w =
      let (s', r, w') = language_agent_node hint s router w in
      let turned = task_agent_node h config s' (router_or router r) gate w' in
      elim (route_after_language s') [
        | clarify ↦ some (record {
          state = clarify_node s';
          router = router_or router r;
          gate = gate;
          world = w';
        })
        | task_agent ↦ elim turned [
          | none ↦ none
          | some d ↦ some (record {
            state = d.0;
            router = d.1.router;
            gate = elim d.1.gate_state [ none ↦ gate | some g ↦ g ];
            world = d.1.world;
          })
        ]
      ]
