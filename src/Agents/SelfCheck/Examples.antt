-- ===== src/Agents/SelfCheck/Examples.antt =====
-- Witness of the self-check: a short draft, and a reviewer that says OK.
use sarvam.Prelude.{
  ℕ, suc, ◌≡◌, refl, true, false, none, String, some, [], ◌∷◌, Text, codes, contains, lookup,
}
use sarvam.Agents.Unicode.{ascii}
use sarvam.Agents.Directive.{Script, is_latin_script}
use sarvam.Agents.SelfCheck.{
  count_words, shape_violation, script_violation_in, draft_violation, verdict, check_request,
  check_target, self_check,
}
use sarvam.Agents.SelfCheck.Verdict.{Shapely, InScript, self_check-Shapely}
use sarvam.LlmAdapter.Messages.{ok, Providers}
use sarvam.LlmAdapter.Router.{
  Router, limited_until, usable_providers, note_error, attempt, complete_with_fallback,
}
use sarvam.Security.OutputValidation.{strip, skip_spaces}
use sarvam.Supervisor.Session.{Mode, is_voice}

abbrev reviewer : Providers String ℕ
reviewer = record {
  P = ℕ;
  name = λ p. "local";
  clock = λ w. w;
  complete = λ p messages system max_tokens w. (ok (codes "OK"), suc w);
  complete_with_tools =
      λ p messages system tools w. (ok (record { text = []; tool_calls = [] }), suc w);
  stream = λ p messages system w. (record { chunks = []; failure = none }, w);
}

abbrev one : Router ℕ
one = record { providers = 0 ∷ []; rate_limited_until = [] }

abbrev short : Text
short = codes "Your note is gone."

short-passes :
    (self_check ascii reviewer short Mode.speech_to_speech (some "en") false none one 0).outcome
    ≡ ok (true, [])
unfolding count_words shape_violation script_violation_in draft_violation verdict check_request
    check_target self_check limited_until usable_providers note_error attempt complete_with_fallback
    strip skip_spaces is_voice contains lookup
short-passes = refl

-- A Telugu answer where the language's own script was expected; the witness's alphabet is ASCII.
abbrev telugu : Text
telugu = 0xC05 ∷ 0xC35 ∷ codes "."

telugu-passes :
    (self_check ascii reviewer telugu Mode.speech_to_speech
      (some "te")
      false
      (some Script.native)
      one
      0).outcome
    ≡ ok (true, [])
unfolding count_words shape_violation script_violation_in draft_violation verdict check_request
    check_target self_check limited_until usable_providers note_error attempt complete_with_fallback
    strip skip_spaces is_voice contains lookup is_latin_script
telugu-passes = refl

self_check-Shapely_example :
    Shapely ascii (is_voice Mode.speech_to_speech) telugu
    × InScript ascii (some Script.native) telugu
self_check-Shapely_example =
    self_check-Shapely ascii reviewer telugu Mode.speech_to_speech (some "te") false
      (some Script.native) one 0 [] telugu-passes
