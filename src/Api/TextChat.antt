-- ===== src/Api/TextChat.antt =====
-- api/main.py: `_chat_impl`, one request of POST /chat, and the endpoints of the conversations.
--
-- The graph keeps the state of a thread in its checkpointer, which is outside: `checkpoint` is the
-- state that it has for the request's thread. The check of the conversation runs beside the graph and
-- does not touch what the graph works on, so one after the other is the same.
use sarvam.Prelude.{ℕ, Bool, true, false, Option, none, some, List, [], String, Text, if◌then◌else◌}
use sarvam.Agents.Language.Detect.{Verdicts}
use sarvam.Agents.TaskAgent.{Host}
use sarvam.Api.ChatEvents.{ChatRequest, PersistTask}
use sarvam.LlmAdapter.Router.{Router}
use sarvam.Persistence.ChatStore.{
  Db, Listed, StoredMessage, list_conversations, create_conversation, delete_conversation,
  get_conversation, list_messages,
}
use sarvam.Security.Confirmation.{PendingConfirmation}
use sarvam.Supervisor.Graph.{GraphState, GraphConfig, GraphEnd, run_graph}

-- A response's body, or the status of an `HTTPException`.
pub data Reply (A : Type 0) : Type 0 where
  body : A → Reply A
  http_error : ℕ → Reply A

pub record ChatResponse (Obj : Type 0) : Type 0 where
  pub response : Text
  pub prompt_version : Text
  pub tool_call_count : ℕ
  pub self_check_ok : Bool
  pub response_language : Option String
  pub language_confidence : Option ℕ
  pub is_code_mixed : Bool
  pub pending_confirmation : Option (PendingConfirmation (Option Obj))
  pub message_id : Option String
  pub error : Bool

abbrev is_some : {A : Type 0} → Option A → Bool
is_some none = false
is_some (some x) = true

module _ {Obj W : Type 0} (h : Host Obj W) (v : Verdicts Obj) (config : GraphConfig Obj W) where
  -- The input of the graph on top of the thread's state.
  unfoldable pub graph_input : ChatRequest → GraphState Obj → GraphState Obj
  graph_input req checkpoint = record checkpoint {
    session = record {
      session_id = req.session_id;
      conversation_id = req.conversation_id;
      thread_id = req.thread_id;
      mode = req.mode;
      response_language = none;
      language_confidence = none;
      is_code_mixed = false;
      translation_applied = false;
      audio_retention_consent = false;
    };
    user_message = req.message;
    confirmation_token = req.confirmation_token;
  }

  -- The background task of an answered turn.
  unfoldable pub chat_task :
      ChatRequest → String → Bool → String → GraphState Obj → Option PersistTask
  chat_task req subject persistence_on new_id s =
      if persistence_on
      then (if s.error
          then none
          else some (record {
            conversation_id = req.conversation_id;
            subject = subject;
            user_message = req.message;
            assistant_message = s.response;
            response_language = s.session.response_language;
            message_id = new_id;
          }))
      else none

  abbrev saved_id : Option PersistTask → Option String
  saved_id none = none
  saved_id (some t) = some t.message_id

  unfoldable pub chat_response : GraphState Obj → Option PersistTask → ChatResponse Obj
  chat_response s task = record {
    response = s.response;
    prompt_version = s.prompt_version;
    tool_call_count = s.tool_call_count;
    self_check_ok = s.self_check_ok;
    response_language = s.session.response_language;
    language_confidence = s.session.language_confidence;
    is_code_mixed = s.session.is_code_mixed;
    pending_confirmation = s.pending_confirmation;
    message_id = saved_id task;
    error = s.error;
  }

  unfoldable pub is_owned : (String → Option String) → ChatRequest → String → Option Db → Bool
  is_owned parse_uuid req subject none = true
  is_owned parse_uuid req subject (some db) =
      is_some (get_conversation parse_uuid req.conversation_id subject (some db))

  -- The reply, the background task, and what the graph leaves; `new_id` is the fresh message id.
  unfoldable pub chat_impl :
      (String → Option String)
      → ChatRequest
      → String
      → Option Db
      → String
      → GraphState Obj
      → Router h.providers.P
      → h.gate.State
      → W
      → Option (Reply (ChatResponse Obj) × (Option PersistTask) × GraphEnd Obj W h)
  unfolding graph_input chat_task chat_response is_owned
  chat_impl parse_uuid req subject db new_id checkpoint router gate w =
      elim (run_graph h v config req.stt_language_hint (graph_input req checkpoint) router gate w) [
        | none ↦ none
        | some e ↦
            let task = chat_task req subject (is_some db) new_id e.state in
            if is_owned parse_uuid req subject db
            then some (body (chat_response e.state task), task, e)
            else some (http_error 404, none, e)
      ]

-- GET /conversations
unfoldable pub list_endpoint : String → Option Db → List Listed
list_endpoint subject db = list_conversations subject db

-- POST /conversations
unfoldable pub create_endpoint : String → String → ℕ → Option Db → Reply String × (Option Db)
create_endpoint subject new_id now db =
    let made = create_conversation subject new_id now db in
    elim made.0 [ none ↦ (http_error 503, made.1) | some i ↦ (body i, made.1) ]

-- GET /conversations/{conversation_id}/messages
unfoldable pub messages_endpoint :
    (String → Option String) → String → String → Option Db → Reply (List StoredMessage)
messages_endpoint parse_uuid conversation_id subject none = body []
messages_endpoint parse_uuid conversation_id subject (some db) =
    elim (get_conversation parse_uuid conversation_id subject (some db)) [
      | none ↦ http_error 404
      | some found ↦ body (list_messages parse_uuid conversation_id subject (some db))
    ]

-- DELETE /conversations/{conversation_id}
unfoldable pub delete_endpoint :
    (String → Option String) → String → String → Option Db → Reply Unit × (Option Db)
delete_endpoint parse_uuid conversation_id subject none = (http_error 503, none)
delete_endpoint parse_uuid conversation_id subject (some db) =
    let deleted = delete_conversation parse_uuid conversation_id subject (some db) in
    if deleted.0 then (body tt, deleted.1) else (http_error 404, deleted.1)
