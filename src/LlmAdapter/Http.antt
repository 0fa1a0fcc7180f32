-- ===== src/LlmAdapter/Http.antt =====
-- llm_adapter/_http_common.py: which HTTP failures let the router fall through; and the error and
-- message types of llm_adapter/base.py.
use sarvam.Prelude.{
  ℕ, Bool, true, false, ◌||◌, Text, codes, contains, leb, ◌==◌, if◌then◌else◌, not,
}

-- `LLMProviderError`; the provider's name in it is read by nobody.
pub record ProviderError : Type 0 where
  pub message : Text
  pub retriable : Bool

unfoldable pub status_retriable : ℕ → Bool
status_retriable status = (status == 429) || leb 500 status

unfoldable pub tool_call_error_retriable : ℕ → Text → Bool
unfolding status_retriable
tool_call_error_retriable status response_text =
    if status_retriable status
    then true
    else if not (status == 400)
    then false
    else contains response_text (codes "tool_use_failed")
