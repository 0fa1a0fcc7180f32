-- ===== src/Api/ChatEvents.antt =====
-- api/main.py: the request, the events and the background task of /chat/stream.
use sarvam.Prelude.{ℕ, Bool, Option, none, some, List, [], ◌∷◌, String, Text}
use sarvam.Agents.TaskAgent.Stream.{TurnDone, TurnEvent, text_delta, done}
use sarvam.Security.Confirmation.{PendingConfirmation}
use sarvam.Supervisor.Session.{Mode}

pub record ChatRequest : Type 0 where
  pub session_id : String
  pub conversation_id : String
  pub thread_id : String
  pub message : Text
  pub mode : Mode
  pub stt_language_hint : Option String
  pub confirmation_token : Option String

-- The fields of the last event.
pub record ChatDone (Obj : Type 0) : Type 0 where
  pub message_id : Option String
  pub response_language : Option String
  pub language_confidence : Option ℕ
  pub is_code_mixed : Bool
  pub self_check_ok : Bool
  pub error : Bool
  pub text : Option Text
  pub pending_confirmation : Option (PendingConfirmation (Option Obj))

pub data ChatEvent (Obj : Type 0) : Type 0 where
  language : Option String → Option ℕ → Bool → ChatEvent Obj
  delta : Text → ChatEvent Obj
  finished : ChatDone Obj → ChatEvent Obj

-- The arguments of the `record_turn` that is started in the background.
pub record PersistTask : Type 0 where
  pub conversation_id : String
  pub subject : String
  pub user_message : Text
  pub assistant_message : Text
  pub response_language : Option String
  pub message_id : String

-- The events of a turn: the texts, and the last one that is not a text.
unfoldable pub relay : {Obj : Type 0} → List (TurnEvent Obj) → List Text × (Option (TurnDone Obj))
relay [] = ([], none)
relay (text_delta t ∷ es) = let rest = relay es in (t ∷ rest.0, rest.1)
relay (done d ∷ es) =
    let rest = relay es in (rest.0, elim rest.1 [ none ↦ some d | some later ↦ some later ])
