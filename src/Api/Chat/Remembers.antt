-- ===== src/Api/Chat/Remembers.antt =====
-- api/main.py: what a turn of /chat/stream leaves for the next one.
use sarvam.Prelude.{
  ◌≡◌, true, false, Option, none, some, List, [], ◌∷◌, ◌++◌, String, Text, codes, map, take_last,
  ltb, is_empty, if◌then◌else◌,
}
use sarvam.Agents.Language.Detect.{Verdicts}
use sarvam.Agents.TaskAgent.{Host, Turn, State}
use sarvam.Agents.TaskAgent.Stream.{TurnDone, TurnEvent, text_delta, done}
use sarvam.Agents.TaskAgent.Stream.Ends.{raw_stream}
use sarvam.Api.Chat.{Process, Answer, Answered, answered, cut_off, turn_of_request}
use sarvam.Api.ChatEvents.{ChatRequest}
use sarvam.Api.StreamHistory.Stores.{HistoryStore}
use sarvam.Api.StreamHistory.{Key}
use sarvam.LlmAdapter.Messages.{Message, user, assistant, other_error, Streamed}
use sarvam.Security.OutputValidation.{tool_verified_marker}
use sarvam.Supervisor.Graph.{GraphConfig}
use sarvam.Supervisor.Session.{SessionState}

module _ {Obj W : Type 0} (h : Host Obj W) (v : Verdicts Obj) (hs : HistoryStore (Message Obj))
    (config : GraphConfig Obj W) where
  -- What is remembered of a turn with the given events.
  pub data Remembered (key : Key) (req : ChatRequest) (history : List (Message Obj)) (s : hs.Store)
      (raw : Streamed) (es : List (TurnEvent Obj)) : Answered h v hs config → Type 0 where
    nothing :
        {a : Answer h v hs config} (ts : List Text) (d : TurnDone Obj)
        → es ≡ map (λ t. text_delta t) ts ++ (done d ∷ [])
        → d.error ≡ true
        → a.is_error ≡ true
        → a.server.histories ≡ s
        → Remembered key req history s raw es (answered a)
    the_turn :
        {a : Answer h v hs config} (ts : List Text) (d : TurnDone Obj)
        → es ≡ map (λ t. text_delta t) ts ++ (done d ∷ [])
        → d.error ≡ false
        → a.is_error ≡ false
        → a.final_text ≡ d.text
        → (hs.get key a.server.histories).0
          ≡ take_last 20 (
              history
              ++ (user req.message
                  ∷ assistant (
                      if ltb 0 d.tool_call_count
                      then d.text ++ (codes "\n" ++ tool_verified_marker)
                      else d.text)
                  ∷ []))
        → Remembered key req history s raw es (answered a)
    nothing_more :
        (ts : List Text) (server : Process h v hs config)
        → raw.failure ≡ some other_error
        → es ≡ map (λ t. text_delta t) ts
        → server.histories ≡ s
        → Remembered key req history s raw es (cut_off ts server)

  abbrev key_of : String → ChatRequest → Key
  key_of subject req = (subject, req.thread_id)

  -- The turn of a request, and what the model streams for it.
  abbrev pub turn_of : ChatRequest → String → SessionState → Process h v hs config → Turn Obj W
  turn_of req subject session server =
      turn_of_request h v hs config req session (hs.get (key_of subject req) server.histories).0

  abbrev pub gate_of : Process h v hs config → Option h.gate.State
  gate_of server = if is_empty config.write_scope_tools then none else some server.gate

  abbrev pub stream_of : ChatRequest → String → SessionState → Process h v hs config → Streamed
  stream_of req subject session server =
      (raw_stream h (turn_of req subject session server) server.router (gate_of server)
        server.world).outcome
