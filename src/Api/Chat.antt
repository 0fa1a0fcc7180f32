-- ===== src/Api/Chat.antt =====
-- api/main.py: `chat_stream`, one request of POST /chat/stream.
--
-- The events are values instead of rendered server-sent events. The history is behind the interface
-- `HistoryStore`, which the in-memory and the Redis variant fill; the lock of a thread lets one turn
-- at a time through, so a turn is one step. What is started in the background is returned as a task.
-- Trace contexts are left out.
pub mod Remembers
pub mod Stream
mod Examples
use sarvam.Prelude.{
  ℕ, suc, ◌+◌, ◌≡◌, refl, arith, Bool, true, false, Option, none, some, List, [], ◌∷◌, ◌++◌, String,
  Text, codes, Dict, map, take_last, ltb, if◌then◌else◌, is_empty,
}
use sarvam.Agents.Language.Detect.{
  Verdicts, LanguageDetectionResult, detect_language, is_low_confidence,
}
use sarvam.Agents.TaskAgent.{ToolFn, Host, Turn, State, clarifying_question}
use sarvam.Agents.TaskAgent.Stream.{TurnDone, TurnEvent, text_delta, done, stream_turn}
use sarvam.Api.StreamHistory.Stores.{HistoryStore, in_memory, in_redis}
use sarvam.Api.ChatEvents.{
  ChatRequest, ChatDone, ChatEvent, language, delta, finished, PersistTask, relay,
}
use sarvam.Api.StreamHistory.{
  Key, key_eq, Memory, history_get, history_set, RedisMap, redis_history_get, redis_history_set,
}
use sarvam.Api.StreamHistory.Cache.{history_set-reads, redis_set-reads}
use sarvam.LlmAdapter.Messages.{Message, user, assistant, ToolDefinition}
use sarvam.LlmAdapter.Router.{Router}
use sarvam.Persistence.ChatStore.{Db, get_conversation}
use sarvam.Security.Confirmation.{PendingConfirmation}
use sarvam.Security.OutputValidation.{tool_verified_marker}
use sarvam.Supervisor.Session.{Mode, SessionState}
use sarvam.Supervisor.Graph.{decide_translation, GraphConfig}

abbrev pub stream_max_history_messages : ℕ
stream_max_history_messages = 20

module _ {Obj W : Type 0} (h : Host Obj W) (v : Verdicts Obj) (hs : HistoryStore (Message Obj))
    (config : GraphConfig Obj W) where
  -- The process: its router, its gate, its histories, and the world.
  pub record Process : Type 0 where
    pub router : Router h.providers.P
    pub gate : h.gate.State
    pub histories : hs.Store
    pub world : W

  -- What the two branches of the answer leave for the last event.
  pub record Answer : Type 0 where
    pub shown : List Text
    pub final_text : Text
    pub self_check_ok : Bool
    pub pending : Option (PendingConfirmation (Option Obj))
    pub is_error : Bool
    pub server : Process

  -- How the generator leaves the branches: with an answer, or with an exception of the turn after the
  -- given texts, which ends the response as it is.
  pub data Answered : Type 0 where
    answered : Answer → Answered
    cut_off : List Text → Process → Answered

  abbrev pub history_text : TurnDone Obj → Text
  history_text d =
      if ltb 0 d.tool_call_count then d.text ++ (codes "\n" ++ tool_verified_marker) else d.text

  unfoldable pub turn_of_request : ChatRequest → SessionState → List (Message Obj) → Turn Obj W
  turn_of_request req session history = record {
    session = session;
    user_message = req.message;
    tools = config.tools;
    tool_definitions = config.tool_definitions;
    max_tool_calls = 3;
    prompt_version = codes "v1";
    cancellation_token = none;
    write_scope_tools = config.write_scope_tools;
    confirmation_token = req.confirmation_token;
    tool_manifest = config.tool_manifest;
    history = history;
  }

  -- `if not is_error: await _stream_history_set(...)`
  unfoldable pub remember :
      Key → ChatRequest → List (Message Obj) → TurnDone Obj → hs.Store → hs.Store
  remember key req history d s =
      if d.error
      then s
      else hs.set key
          (take_last stream_max_history_messages
            (history ++ (user req.message ∷ assistant (history_text d) ∷ [])))
          s

  -- The process after a turn, apart from its histories.
  abbrev pub process_after : State Obj W h → Process → Process
  process_after st server = record server {
    router = st.router;
    gate = elim st.gate_state [ none ↦ server.gate | some g ↦ g ];
    world = st.world;
  }

  -- What is left of a turn of `stream_turn`, from its texts and its last event.
  unfoldable pub answer_of :
      Key
      → ChatRequest
      → List (Message Obj)
      → Process
      → State Obj W h
      → List Text × (Option (TurnDone Obj))
      → Answered
  unfolding remember
  answer_of key req history server st (shown, none) = cut_off shown (process_after st server)
  answer_of key req history server st (shown, some d) = answered (record {
    shown = shown;
    final_text = d.text;
    self_check_ok = d.self_check_ok;
    pending = d.pending_confirmation;
    is_error = d.error;
    server = record (process_after st server) {
      histories = remember key req history d server.histories;
    };
  })

  unfoldable pub after_turn :
      Key
      → ChatRequest
      → List (Message Obj)
      → Process
      → List (TurnEvent Obj) × State Obj W h
      → Answered
  unfolding answer_of
  after_turn key req history server (events, st) =
      answer_of key req history server st (relay events)

  -- The turn under the thread's lock. One round more than the three tool calls is enough.
  unfoldable pub answer_turn : ChatRequest → String → SessionState → Process → Option Answered
  unfolding turn_of_request after_turn
  answer_turn req subject session server =
      let key : Key = (subject, req.thread_id) in
      let (history, histories) = hs.get key server.histories in
      let gate' : Option h.gate.State =
        if is_empty config.write_scope_tools then none else some server.gate in
      elim (stream_turn h (turn_of_request req session history) 4 server.router gate'
        server.world) [
          | none ↦ none
          | some r ↦
              let read : Process = record server { histories = histories } in
              some (after_turn key req history read r)
        ]

  unfoldable pub clarify_answer : Process → Answer
  clarify_answer server = record {
    shown = clarifying_question ∷ [];
    final_text = clarifying_question;
    self_check_ok = true;
    pending = none;
    is_error = false;
    server = server;
  }

  unfoldable pub opened_session : ChatRequest → LanguageDetectionResult → SessionState
  unfolding decide_translation
  opened_session req found = record {
    session_id = req.session_id;
    conversation_id = req.conversation_id;
    thread_id = req.thread_id;
    mode = req.mode;
    response_language = some found.language;
    language_confidence = some found.confidence;
    is_code_mixed = found.is_code_mixed;
    translation_applied = decide_translation false [] found.language;
    audio_retention_consent = false;
  }

  unfoldable pub persist :
      ChatRequest → String → Bool → String → SessionState → Answer → Option PersistTask
  persist req subject persistence_on new_id session a =
      if persistence_on
      then (if a.is_error
          then none
          else some (record {
            conversation_id = req.conversation_id;
            subject = subject;
            user_message = req.message;
            assistant_message = a.final_text;
            response_language = session.response_language;
            message_id = new_id;
          }))
      else none

  abbrev pub message_id_of : Option PersistTask → Option String
  message_id_of none = none
  message_id_of (some t) = some t.message_id

  unfoldable pub stream_events : SessionState → Answer → Option PersistTask → List (ChatEvent Obj)
  stream_events session a task =
      language session.response_language session.language_confidence session.is_code_mixed
      ∷ (map (λ t. delta t) a.shown
          ++ (finished (record {
            message_id = message_id_of task;
            response_language = session.response_language;
            language_confidence = session.language_confidence;
            is_code_mixed = session.is_code_mixed;
            self_check_ok = a.self_check_ok;
            error = a.is_error;
            text = if a.is_error then some a.final_text else none;
            pending_confirmation = a.pending;
          })
              ∷ []))

  abbrev pub heard_by : Process → Option (Router h.providers.P) × W → Process
  heard_by server (none, w) = record server { world = w }
  heard_by server (some r, w) = record server { router = r; world = w }

  -- The events around an answer, the background task, and the server afterwards.
  unfoldable pub respond :
      ChatRequest
      → String
      → Bool
      → String
      → SessionState
      → Option Answered
      → Option (List (ChatEvent Obj) × (Option PersistTask) × Process)
  unfolding persist stream_events
  respond req subject persistence_on new_id session none = none
  respond req subject persistence_on new_id session (some (cut_off shown server)) = some (
    language session.response_language session.language_confidence session.is_code_mixed
        ∷ map (λ t. delta t) shown,
    none,
    server,
  )
  respond req subject persistence_on new_id session (some (answered a)) =
      let task = persist req subject persistence_on new_id session a in
      some (stream_events session a task, task, a.server)

  -- `_event_stream_inner`; `new_id` is the fresh id of the assistant's message.
  unfoldable pub event_stream :
      ChatRequest
      → String
      → Bool
      → String
      → Process
      → Option (List (ChatEvent Obj) × (Option PersistTask) × Process)
  unfolding opened_session answer_turn clarify_answer respond
  event_stream req subject persistence_on new_id server =
      let (found, r, w) =
        detect_language h.unicode v h.providers req.message req.stt_language_hint
          (some server.router) server.world in
      let session = opened_session req found in
      respond req subject persistence_on new_id session (
        if is_low_confidence (some found.confidence)
        then some (answered (clarify_answer (heard_by server (r, w))))
        else answer_turn req subject session (heard_by server (r, w)))

  -- The response: 404, or the stream.
  pub data Response : Type 0 where
    not_found : Response
    stream : Option (List (ChatEvent Obj) × (Option PersistTask) × Process) → Response

  unfoldable pub chat_stream :
      (String → Option String) → ChatRequest → String → Option Db → String → Process → Response
  unfolding event_stream
  chat_stream parse_uuid req subject none new_id server =
      stream (event_stream req subject false new_id server)
  chat_stream parse_uuid req subject (some db) new_id server =
      elim (get_conversation parse_uuid req.conversation_id subject (some db)) [
        | none ↦ not_found
        | some found ↦ stream (event_stream req subject true new_id server)
      ]
