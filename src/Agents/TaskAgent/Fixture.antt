-- ===== src/Agents/TaskAgent/Fixture.antt =====
-- A concrete host for tests and witnesses: one provider, which asks for an irreversible tool and then
-- answers. The world is the number of model calls so far.
use sarvam.Prelude.{ℕ, suc, false, Option, none, some, String, [], ◌∷◌, codes, ◌==◌, if◌then◌else◌}
use sarvam.Agents.Unicode.{ascii}
use sarvam.Agents.ToolCall.{Json, malformed}
use sarvam.Agents.TaskAgent.{ToolFn, returned, Host, Turn}
use sarvam.LlmAdapter.Messages.{ToolCall, CompletionResult, ok, Providers}
use sarvam.LlmAdapter.Router.{Router}
use sarvam.Security.Confirmation.{MemoryGate}
use sarvam.Security.Confirmation.Memory.{memory_gate}
use sarvam.Supervisor.Session.{Mode, SessionState}

abbrev pub no_json : Json String
no_json = record {
  loads = λ t. malformed;
  empty = "{}";
  name_of = λ o. none;
  args_of = λ o. none;
  query = λ t. "query";
}

abbrev pub delete_call : ToolCall String
delete_call = record { id = "1"; name = "delete_note"; args = some "7" }

abbrev pub next_answer : ℕ → CompletionResult String
next_answer n =
    if n == 0
    then record { text = []; tool_calls = delete_call ∷ [] }
    else record { text = codes "Note <b>7</b> is gone."; tool_calls = [] }

abbrev pub one_provider : Providers String ℕ
one_provider = record {
  P = ℕ;
  name = λ p. "local";
  clock = λ w. w;
  complete = λ p messages system max_tokens w. (ok (codes "OK"), suc w);
  complete_with_tools = λ p messages system tools w. (ok (next_answer w), suc w);
  stream = λ p messages system w. (record { chunks = []; failure = none }, w);
}

abbrev pub plain_digest : String → Option String → String
plain_digest tool none = "null"
plain_digest tool (some a) = a

abbrev pub host : Host String ℕ
host = record {
  unicode = ascii;
  json = no_json;
  providers = one_provider;
  template = λ stem version session. codes "Be brief.";
  digest = plain_digest;
  gate = memory_gate plain_digest;
  token_urlsafe = λ w. ("fresh", w);
}

abbrev pub voice_session : SessionState
voice_session = record {
  session_id = "s";
  conversation_id = "c";
  thread_id = "t";
  mode = Mode.speech_to_speech;
  response_language = some "en";
  language_confidence = none;
  is_code_mixed = false;
  translation_applied = false;
  audio_retention_consent = false;
}

abbrev pub delete_note : ToolFn String ℕ
delete_note o w = (returned (codes "deleted"), w)

abbrev pub voice_turn : Turn String ℕ
voice_turn = record {
  session = voice_session;
  user_message = codes "Delete note 7.";
  tools = ("delete_note", delete_note) ∷ [];
  tool_definitions = [];
  max_tool_calls = 3;
  prompt_version = codes "v1";
  cancellation_token = none;
  write_scope_tools = "delete_note" ∷ [];
  confirmation_token = some "k";
  tool_manifest = [];
  history = [];
}

abbrev pub local_router : Router ℕ
local_router = record { providers = 0 ∷ []; rate_limited_until = [] }

abbrev pub issued_gate : Option MemoryGate
issued_gate = some (record {
  pending = ("k", record { tool = "delete_note"; hash = "7"; expires_at = 300 }) ∷ [];
  ttl = 300;
})
