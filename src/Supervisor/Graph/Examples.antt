-- ===== src/Supervisor/Graph/Examples.antt =====
-- Witness of the graph: a turn of a thread without history.
use sarvam.Prelude.{
  ℕ, ◌≤◌, ◌<◌, ◌≡◌, ◌⊎◌, true, false, none, some, [], ◌∷◌, ◌++◌, String, codes, length, take_last,
}
use sarvam.Agents.TaskAgent.{State, clarifying_question}
use sarvam.Agents.TaskAgent.Fixture.{host, voice_session, delete_note, local_router}
use sarvam.LlmAdapter.Messages.{user, assistant}
use sarvam.Security.Confirmation.{MemoryGate}
use sarvam.Supervisor.Graph.{GraphState, GraphConfig, GraphEnd, task_agent_node, run_graph}
use sarvam.Agents.ToolCall.{malformed}
use sarvam.Agents.Language.Detect.{Verdicts}
use sarvam.Supervisor.Graph.Whole.{detected, run_graph-ends}
use sarvam.Supervisor.Graph.History.{marked, task_agent_node-history}

abbrev config : GraphConfig String ℕ
config = record {
  tools = ("delete_note", delete_note) ∷ [];
  tool_definitions = [];
  tool_manifest = [];
  write_scope_tools = "delete_note" ∷ [];
  max_tool_calls = 3;
}

abbrev thread : GraphState String
thread = record {
  session = voice_session;
  user_message = codes "Delete note 7.";
  confirmation_token = none;
  response = [];
  prompt_version = [];
  tool_call_count = 0;
  self_check_ok = true;
  pending_confirmation = none;
  error = false;
  history = user (codes "Hi") ∷ assistant (codes "Hello") ∷ [];
}

abbrev empty_gate : MemoryGate
empty_gate = record { pending = []; ttl = 300 }

task_agent_node-history_example :
    (s' : GraphState String) × (st : State String ℕ host) × (task_agent_node host config thread
        local_router empty_gate 0
      ≡ some (s', st))
    × (length s'.history ≤ 20)
    × ((s'.error ≡ true) × (s'.history ≡ take_last 20 thread.history)
        ⊎ (s'.error ≡ false)
          × (s'.history
              ≡ take_last 18 thread.history
                ++ (user (codes "Delete note 7.") ∷ assistant (marked s') ∷ [])))
task_agent_node-history_example =
    task_agent_node-history host config thread local_router empty_gate 0

-- A classifier whose answers are never read.
abbrev unread : Verdicts String
unread = record {
  loads = λ t. malformed;
  language = λ o. none;
  confidence = λ o. none;
  is_code_mixed = λ o. false;
}

run_graph-ends_example :
    (e : GraphEnd String ℕ host) × (run_graph host unread config none thread local_router empty_gate
        0
      ≡ some e)
    × (((detected host unread config none thread local_router 0).0.confidence < 50)
          × (e.state.response ≡ clarifying_question)
          × (e.state.tool_call_count ≡ 0)
          × (e.gate ≡ empty_gate)
          × (e.state.history ≡ thread.history)
          × (e.world ≡ (detected host unread config none thread local_router 0).2)
        ⊎ (50 ≤ (detected host unread config none thread local_router 0).0.confidence)
          × (length e.state.history ≤ 20))
run_graph-ends_example = run_graph-ends host unread config none thread local_router empty_gate 0
