-- ===== src/Api/Chat/Stream.antt =====
-- api/main.py: what a request of /chat/stream sends, saves and remembers.
use sarvam.Prelude.{ℕ, ◌≡◌, Bool, true, Option, none, some, List, [], ◌∷◌, ◌++◌, String, Text, map}
use sarvam.Agents.Language.Detect.{Verdicts, LanguageDetectionResult, detect_language}
use sarvam.Agents.TaskAgent.{Host}
use sarvam.Api.Chat.{Process, Answered, answered, cut_off, opened_session, message_id_of, heard_by}
use sarvam.Api.ChatEvents.{ChatRequest, ChatDone, ChatEvent, language, delta, finished, PersistTask}
use sarvam.Api.StreamHistory.Stores.{HistoryStore}
use sarvam.LlmAdapter.Messages.{Message, other_error, Streamed}
use sarvam.LlmAdapter.Router.{Router}
use sarvam.Supervisor.Graph.{GraphConfig}
use sarvam.Supervisor.Session.{SessionState}
use sarvam.Api.Chat.Remembers.{stream_of}

module _ {Obj W : Type 0} (h : Host Obj W) (v : Verdicts Obj) (hs : HistoryStore (Message Obj))
    (config : GraphConfig Obj W) where
  -- The shape of a response: the language, any number of texts, and the last event. After an error
  -- nothing is saved; and the last event names the message that is. Where the model's stream breaks
  -- off with an exception that is no provider error the last event may be missing, and nothing is saved.
  pub data Framed (raw : Streamed) : List (ChatEvent Obj) → Option PersistTask → Type 0 where
    framed :
        (l : Option String) (c : Option ℕ) (mixed : Bool) (ts : List Text) (d : ChatDone Obj)
        (task : Option PersistTask)
        → (d.error ≡ true → task ≡ none)
        → d.message_id ≡ message_id_of h v hs config task
        → Framed raw (language l c mixed ∷ (map (λ t. delta t) ts ++ (finished d ∷ []))) task
    cut_short :
        (l : Option String) (c : Option ℕ) (mixed : Bool) (ts : List Text)
        → raw.failure ≡ some other_error
        → Framed raw (language l c mixed ∷ map (λ t. delta t) ts) none

  -- What the language agent finds for a request.
  abbrev pub heard :
      ChatRequest
      → Process h v hs config
      → LanguageDetectionResult × (Option (Router h.providers.P)) × W
  heard req server =
      detect_language h.unicode v h.providers req.message req.stt_language_hint (some server.router)
        server.world

  abbrev server_of : Answered h v hs config → Process h v hs config
  server_of (answered a) = a.server
  server_of (cut_off ts server) = server

  abbrev Response :
      Streamed
      → Process h v hs config
      → Option (List (ChatEvent Obj) × (Option PersistTask) × Process h v hs config)
      → Type 0
  Response raw after o =
      (events : List (ChatEvent Obj)) × (task : Option PersistTask) × (o
        ≡ some (events, task, after))
      × Framed raw events task

  -- What the request has heard, and the session it opens.
  abbrev pub heard_server : ChatRequest → Process h v hs config → Process h v hs config
  heard_server req server =
      heard_by h v hs config server ((heard req server).1, (heard req server).2)

  abbrev session_of : ChatRequest → Process h v hs config → SessionState
  session_of req server = opened_session h v hs config req (heard req server).0

  -- What the model streams for the turn of a request.
  abbrev pub streamed_for : ChatRequest → String → Process h v hs config → Streamed
  streamed_for req subject server =
      stream_of h v hs config req subject (session_of req server) (heard_server req server)
