-- ===== src/Supervisor/Session.antt =====
-- supervisor/session_state_machine.py and supervisor/state.py: the phase of a voice session, the
-- pipeline mode of a turn, and the session state.
use sarvam.Prelude.{ℕ, String, Bool, true, false, Option}

pub data SessionPhase : Type 0 where
  listening thinking speaking : SessionPhase

-- `SessionStateMachine` has the one field `phase`.
pub record SessionStateMachine : Type 0 where
  pub phase : SessionPhase

abbrev pub new_machine : SessionStateMachine
new_machine = record { phase = SessionPhase.listening }

unfoldable pub transition_to : SessionPhase → SessionStateMachine → SessionStateMachine
transition_to p m = record m { phase = p }

abbrev pub is_active : SessionPhase → Bool
is_active SessionPhase.thinking = true
is_active SessionPhase.speaking = true
is_active SessionPhase.listening = false

unfoldable pub barge_in : SessionStateMachine → SessionStateMachine × Bool
barge_in m = (record m { phase = SessionPhase.listening }, is_active m.phase)

pub data Mode : Type 0 where
  text_to_text speech_to_text text_to_speech speech_to_speech : Mode

unfoldable pub is_voice : Mode → Bool
is_voice Mode.text_to_speech = true
is_voice Mode.speech_to_speech = true
is_voice _ = false

-- Confidences are in hundredths: the program's confidences have two decimals.
pub record SessionState : Type 0 where
  pub session_id : String
  pub conversation_id : String
  pub thread_id : String
  pub mode : Mode
  pub response_language : Option String
  pub language_confidence : Option ℕ
  pub is_code_mixed : Bool
  pub translation_applied : Bool
  pub audio_retention_consent : Bool
