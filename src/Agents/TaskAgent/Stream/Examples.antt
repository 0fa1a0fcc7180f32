-- ===== src/Agents/TaskAgent/Stream/Examples.antt =====
-- Tests and witnesses of the streamed turn.
use sarvam.Prelude.{
  ℕ, suc, ◌<◌, ◌≡◌, refl, true, false, Option, none, some, List, String, Text, [], ◌∷◌, All, codes,
  length, arith, map,
}
use sarvam.Agents.Unicode.{ascii}
use sarvam.Agents.TaskAgent.{Host, Turn, State, llm_unavailable_apology}
use sarvam.Agents.TaskAgent.Fixture.{
  host, no_json, plain_digest, voice_turn, local_router, issued_gate,
}
use sarvam.Agents.TaskAgent.Stream.{done, plain_done, end_turn, stream_turn}
use sarvam.Agents.TaskAgent.Speaking.{speak_chunks}
use sarvam.Agents.TaskAgent.Sniffing.{failed}
use sarvam.Agents.TaskAgent.Stream.Ends.{after_raw, raw_stream}
use sarvam.Agents.TaskAgent.Stream.Window.{stream_turn-provider_error}
use sarvam.LlmAdapter.Http.{ProviderError}
use sarvam.LlmAdapter.Messages.{provider_error, other_error, Streamed, ok}
use sarvam.LlmAdapter.Router.{Router}
use sarvam.Security.Confirmation.Memory.{memory_gate}

-- A host whose provider streams a given answer.
abbrev streams : Streamed → Host String ℕ
streams raw = record {
  unicode = ascii;
  json = no_json;
  providers = record {
    P = ℕ;
    name = λ p. "local";
    clock = λ w. w;
    complete = λ p messages system max_tokens w. (ok (codes "OK"), suc w);
    complete_with_tools =
        λ p messages system tools w. (ok (record { text = codes "Done."; tool_calls = [] }), suc w);
    stream = λ p messages system w. (raw, suc w);
  };
  template = λ stem version session. codes "Be brief.";
  digest = plain_digest;
  gate = memory_gate plain_digest;
  token_urlsafe = λ w. ("fresh", w);
}

abbrev asks_a_tool : Streamed
asks_a_tool = record { chunks = codes "I will look. " ∷ codes "TOOL_CALL: {}" ∷ []; failure = none }

abbrev timeout : ProviderError
timeout = record { message = codes "timeout"; retriable = true }

abbrev breaks_off : Streamed
breaks_off = record { chunks = codes "Your note" ∷ []; failure = some (provider_error timeout) }

abbrev h_tool : Host String ℕ
h_tool = streams asks_a_tool

abbrev h_broken : Host String ℕ
h_broken = streams breaks_off

broken_off : (raw_stream h_broken voice_turn local_router issued_gate 0).outcome ≡ breaks_off
unfolding sarvam.LlmAdapter.Router.stream_with_fallback sarvam.LlmAdapter.Router.attempt_stream
    sarvam.LlmAdapter.Router.usable_providers sarvam.Agents.TaskAgent.Stream.open_stream
    sarvam.Prelude.contains sarvam.Prelude.lookup
broken_off = refl

stream_turn-provider_error_example :
    stream_turn h_broken voice_turn 4 local_router issued_gate 0
    ≡ some (
      done (record (plain_done h_broken voice_turn llm_unavailable_apology) { error = true }) ∷ [],
      after_raw h_broken voice_turn local_router issued_gate 0,
    )
stream_turn-provider_error_example =
    stream_turn-provider_error h_broken voice_turn 4 local_router issued_gate 0 timeout
      (rw broken_off refl) (rw broken_off (omega arith))

abbrev chinese : List Text
chinese = (0x4E2D ∷ []) ∷ []

abbrev opened : State String ℕ host
opened = record {
  router = local_router;
  gate_state = issued_gate;
  world = 0;
  messages = [];
  tool_call_count = 0;
  trace = [];
}

-- A line of the stream is no JSON: the turn ends without `done`.
garbled_raises :
    end_turn host voice_turn 4 [] false
      (failed other_error)
      (speak_chunks host voice_turn [] [] false [])
      opened
    ≡ some ([], opened)
unfolding end_turn speak_chunks
garbled_raises = refl
