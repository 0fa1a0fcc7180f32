-- ===== src/Api/Chat/Examples.antt =====
-- Tests and witnesses of /chat/stream.
use sarvam.Prelude.{ℕ, ◌≡◌, refl, false, none, some, String, [], ◌∷◌, codes}
use sarvam.Agents.Language.Detect.{Verdicts}
use sarvam.Agents.ToolCall.{malformed}
use sarvam.Agents.TaskAgent.Fixture.{host, delete_note, local_router}
use sarvam.Api.Chat.{Process, chat_stream, not_found}
use sarvam.Api.ChatEvents.{ChatRequest}
use sarvam.Api.StreamHistory.Stores.{HistoryStore, in_memory}
use sarvam.Api.StreamHistory.{empty_memory}
use sarvam.LlmAdapter.Messages.{Message}
use sarvam.Persistence.ChatStore.{get_conversation}
use sarvam.Supervisor.Graph.{GraphConfig}
use sarvam.Supervisor.Session.{Mode}

abbrev unread : Verdicts String
unread = record {
  loads = λ t. malformed;
  language = λ o. none;
  confidence = λ o. none;
  is_code_mixed = λ o. false;
}

abbrev config : GraphConfig String ℕ
config = record {
  tools = ("delete_note", delete_note) ∷ [];
  tool_definitions = [];
  tool_manifest = [];
  write_scope_tools = "delete_note" ∷ [];
  max_tool_calls = 3;
}

abbrev server : Process host unread (in_memory (Message String)) config
server = record {
  router = local_router;
  gate = record { pending = []; ttl = 300 };
  histories = empty_memory (Message String);
  world = 0;
}

abbrev request : ChatRequest
request = record {
  session_id = "s";
  conversation_id = "c1";
  thread_id = "t";
  message = codes "Delete note 7.";
  mode = Mode.text_to_text;
  stt_language_hint = none;
  confirmation_token = none;
}

-- A conversation of nobody.
foreign :
    chat_stream host unread
      (in_memory (Message String))
      config
      (λ s. some s)
      request
      "ann"
      (some (record { conversations = []; messages = [] }))
      "r"
      server
    ≡ not_found
unfolding chat_stream get_conversation
foreign = refl

abbrev store : HistoryStore (Message String)
store = in_memory (Message String)
