-- ===== src/Agents/TaskAgent.antt =====
-- agents/task_agent.py: `run_turn`, one turn of the reasoning loop, with agents/cancellation.py and
-- the template choice of agents/prompt_templates.py.
--
-- What the program does not implement is in `Host`: the model providers, the tools, the prompt
-- files, the JSON library, Unicode, fresh tokens. Each acts on the world. The trace of a turn's
-- state records which tools were run and which confirmations were redeemed; nothing reads it.
-- Logging and spans are left out.
pub mod Calls
pub mod Loop
pub mod Finish
pub mod Sniffing
pub mod Speaking
pub mod Stream
pub mod Budget
pub mod Returns
pub mod Replies
pub mod Spent
pub mod Once
pub mod Consent
pub mod Fixture
mod Examples
use sarvam.Prelude.{
  ℕ, Bool, Option, none, some, List, ◌∷◌, ◌++◌, String, Text, codes, Dict, ltb, str_eq,
  if◌then◌else◌, any, take, length,
}
use sarvam.Agents.Unicode.{Unicode}
use sarvam.Agents.ToolCall.{Json}
use sarvam.Supervisor.Session.{Mode, SessionState}
use sarvam.LlmAdapter.Messages.{Message, ToolDefinition, Providers}
use sarvam.LlmAdapter.Router.{Router}
use sarvam.Security.Confirmation.{PendingConfirmation}
use sarvam.Security.Confirmation.Gate.{Gate}

-- What a tool returns, or the text of the exception that it raises.
pub data ToolResult : Type 0 where
  returned : Text → ToolResult
  raised : Text → ToolResult

abbrev pub ToolFn : Type 0 → Type 0 → Type 0
ToolFn Obj W = Obj → W → ToolResult × W

-- A `CancellationToken` that the world may fire: whether it has fired, and whether it fired while a
-- call took one world to another.
pub record Token (W : Type 0) : Type 0 where
  pub is_cancelled : W → Bool
  pub interrupts : W → W → Bool

pub record Host (Obj W : Type 0) : Type 1 where
  pub unicode : Unicode
  pub json : Json Obj
  pub providers : Providers Obj W
  pub template : Text → Text → SessionState → Text
  pub digest : String → Option Obj → String
  pub gate : Gate digest
  pub token_urlsafe : W → String × W

pub record Turn (Obj W : Type 0) : Type 0 where
  pub session : SessionState
  pub user_message : Text
  pub tools : Dict (ToolFn Obj W)
  pub tool_definitions : List (ToolDefinition Obj)
  pub max_tool_calls : ℕ
  pub prompt_version : Text
  pub cancellation_token : Option (Token W)
  pub write_scope_tools : List String
  pub confirmation_token : Option String
  pub tool_manifest : Text
  pub history : List (Message Obj)

pub record TurnResult (Obj : Type 0) : Type 0 where
  pub text : Text
  pub prompt_version : Text
  pub tool_call_count : ℕ
  pub self_check_ok : Bool
  pub self_check_reason : Text
  pub cancelled : Bool
  pub pending_confirmation : Option (PendingConfirmation (Option Obj))
  pub error : Bool

pub data Effect (Obj : Type 0) : Type 0 where
  ran : String → Option Obj → Effect Obj
  redeemed : String → Option Obj → Effect Obj

abbrev pub clarifying_question : Text
clarifying_question =
    codes
      "I want to make sure I get this right — could you clarify exactly what you'd like me to do?"

abbrev pub confirmation_required_text : Text
confirmation_required_text =
    codes
      "This action can't be undone, so I need you to confirm it before I proceed — please tap or type to confirm."

abbrev pub llm_unavailable_apology : Text
llm_unavailable_apology =
    codes "I'm having trouble getting an answer right now — please try again in a moment."

abbrev pub forced_context_max_chars : ℕ
forced_context_max_chars = 3000

unfoldable pub mode_stem : Mode → Text
mode_stem Mode.text_to_text = codes "text_mode_system"
mode_stem Mode.speech_to_text = codes "text_mode_system"
mode_stem Mode.text_to_speech = codes "voice_mode_system"
mode_stem Mode.speech_to_speech = codes "voice_mode_system"

unfoldable pub member : String → List String → Bool
member s xs = any (λ x. str_eq x s) xs

unfoldable pub with_forced_context : Text → Option Text → Text
with_forced_context message none = message
with_forced_context message (some context) =
    codes
      "[The following was already retrieved from mTouch Labs' real website content — use the FACTS in it directly to answer; do not guess or use any other name/fact. This reference material may be written in ANY language, not necessarily English or the user's own language — do not assume it matches either. Your ANSWER must be in the user's own detected language below regardless of what language this reference material happens to be written in: TRANSLATE the retrieved facts (names, numbers, descriptions) into the user's own language rather than copying the reference material's own wording, script, or language verbatim — including short facts like a person's name or title, which must still be transliterated/rendered in the user's own script, not pasted as-is from the source.]\n"
    ++ (context ++ (codes "\n\n" ++ message))

unfoldable pub truncate_context : Text → Text
truncate_context context =
    if ltb forced_context_max_chars (length context)
    then take forced_context_max_chars context
      ++ codes "\n[...additional details omitted for brevity]"
    else context

abbrev pub correction_request : Text → Text
correction_request reason =
    codes "Your previous draft violated a rule: "
    ++ (reason
        ++ codes
            ". Revise your ENTIRE reply to fix this while keeping the same factual content and answering the same question. Reply with ONLY the corrected reply text — no preamble, no explanation of what you changed.")

abbrev pub self_check_failed : Text
self_check_failed = codes "self-check itself failed (provider error) — not evaluated"

-- What a turn works on. `gate_state` is none where the turn was given no confirmation gate.
pub record State (Obj W : Type 0) (h : Host Obj W) : Type 0 where
  pub router : Router h.providers.P
  pub gate_state : Option h.gate.State
  pub world : W
  pub messages : List (Message Obj)
  pub tool_call_count : ℕ
  pub trace : List (Effect Obj)

-- How the reasoning loop ends.
pub data Ending (Obj : Type 0) : Type 0 where
  drafted : Text → Ending Obj
  provider_down : Ending Obj
  clarify : Ending Obj
  confirm : PendingConfirmation (Option Obj) → Ending Obj
  stopped : Ending Obj
