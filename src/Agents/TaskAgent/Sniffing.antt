-- ===== src/Agents/TaskAgent/Sniffing.antt =====
-- agents/task_agent.py: `_sniff_and_forward`, the search for a tool call at the front of a stream.
use sarvam.Prelude.{
  ℕ, Option, none, some, List, [], ◌∷◌, ◌++◌, String, Text, length, leb, if◌then◌else◌, is_empty,
}
use sarvam.Agents.ToolCall.{looks_like_tool_call_attempt}
use sarvam.LlmAdapter.Messages.{Failure, Streamed}

abbrev pub tool_call_sniff_chars : ℕ
tool_call_sniff_chars = 200

-- How the sniffed stream ends: by itself, with `_ToolCallDetected`, or with an exception of the provider.
pub data StreamEnd : Type 0 where
  finished : StreamEnd
  tool_call_detected : StreamEnd
  failed : Failure → StreamEnd

abbrev pub end_of : Option Failure → StreamEnd
end_of none = finished
end_of (some e) = failed e

-- `_sniff_and_forward`, from a buffer that is not sniffed yet.
unfoldable pub sniff_on : List String → Text → List Text → Option Failure → List Text × StreamEnd
sniff_on names buffered [] (some e) = ([], failed e)
sniff_on names buffered [] none =
    if looks_like_tool_call_attempt buffered names
    then ([], tool_call_detected)
    else if is_empty buffered
    then ([], finished)
    else (buffered ∷ [], finished)
sniff_on names buffered (delta ∷ deltas) failure =
    let rest = sniff_on names (buffered ++ delta) deltas failure in
    if leb tool_call_sniff_chars (length (buffered ++ delta))
    then (if looks_like_tool_call_attempt (buffered ++ delta) names
        then ([], tool_call_detected)
        else ((buffered ++ delta) ∷ deltas, end_of failure))
    else rest

unfoldable pub sniff_and_forward : List String → Streamed → List Text × StreamEnd
unfolding sniff_on
sniff_and_forward names raw = sniff_on names [] raw.chunks raw.failure
