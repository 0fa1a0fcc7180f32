-- ===== src/Agents/TaskAgent/Examples.antt =====
-- Tests and witnesses of `run_turn`: a voice turn in which the model asks for an irreversible tool
-- with a confirmation in hand, and then answers. The world is the number of model calls so far.
use sarvam.Prelude.{
  Bool-cases, inl, inr, arith, str_eq, contains, lookup, insert, remove, ℕ, suc, ◌≡◌, ◌≤◌, refl,
  true, false, Option, none, some, String, [], ◌∷◌, Text, codes,
}
use sarvam.Agents.TaskAgent.{ToolFn, Turn, TurnResult, State, member}
use sarvam.Agents.TaskAgent.Fixture.{delete_note, host, voice_turn, local_router, issued_gate}
use sarvam.Agents.TaskAgent.Budget.{runs}
use sarvam.Agents.TaskAgent.Consent.{Consented, run_turn-Consented}
use sarvam.Agents.TaskAgent.Finish.{run_turn}
use sarvam.Agents.TaskAgent.Spent.{irreversible_runs}
use sarvam.Agents.TaskAgent.Once.{run_turn-once}
use sarvam.Agents.TaskAgent.Returns.{run_turn-returns, run_turn-budget}
use sarvam.Agents.TaskAgent.Replies.{run_turn-TagFree, run_turn-asks}
use sarvam.Security.Confirmation.{PendingConfirmation}
use sarvam.Security.OutputValidation.Tags.{TagFree}
use sarvam.Agents.TaskAgent.{mode_stem, member, with_forced_context, truncate_context}
use sarvam.Agents.TaskAgent.Calls.{
  output_of, args_or, tool_output, tool_message, run_tool, redeem_confirmation, ask_confirmation,
  run_confirmed, run_call, run_calls,
}
use sarvam.Agents.TaskAgent.Loop.{
  is_cancelled, is_interrupted, push, dispatch, answer, round, turn_loop,
}
use sarvam.Agents.TaskAgent.Finish.{
  check, script_violation, review, correct, settle, capped, forced_company_context, is_present,
  build_system_prompt, version_id, open_turn, fixed_result, ship, close_turn, run_turn,
}
use sarvam.Agents.ToolCall.{
  splitlines, bare_call, parse_lines, parse_tool_call, plain_message, plain_text_messages,
}
use sarvam.Agents.SelfCheck.{
  count_words, shape_violation, script_violation_in, draft_violation, check_target, check_request,
  verdict, self_check,
}
use sarvam.Agents.Directive.{
  language_name, target_name, is_latin_script, expected_script, script_note, language_directive,
  voice_brevity_directive, join_nonempty, turn_directive, describe_script_violation,
}
use sarvam.Agents.Language.{
  find_range, disallowed_script_in, script_of_char, count_of, count_char, profile_from,
  script_profile, total_of, dominant_from, dominant, lang_to_script, language_mismatch,
  target_language_mismatch, hits, romanized_language_in,
}
use sarvam.Agents.Untrusted.{tag_of, wrap_untrusted}
use sarvam.LlmAdapter.Router.{
  limited_until, usable_providers, note_error, attempt, complete_with_fallback,
  complete_with_tools_and_fallback,
}
use sarvam.Security.Confirmation.{
  is_expired, expired_tokens, delete_all, evict_expired, request_in_memory, redeem,
  consume_in_memory,
}
use sarvam.Security.OutputValidation.{
  is_leak, after_gt, html_tag, sub_on, sub, literal, marker, collapse_newlines, last_open,
  literal_nocase, skip_spaces, strip, word_end, close_script, find_close, script_tag, clean,
  sanitize_llm_output,
}
use sarvam.Supervisor.Session.{is_voice}
use sarvam.Supervisor.Session.{Mode, is_voice}

abbrev result : Option (TurnResult String × State String ℕ host) → Text × ℕ
result none = ([], 0)
result (some (r, s)) = (r.text, r.tool_call_count)

deleted :
    result (run_turn host 4 voice_turn local_router issued_gate 0) ≡ (codes "Note 7 is gone.", 1)
unfolding mode_stem member with_forced_context truncate_context output_of args_or tool_output
    tool_message run_tool redeem_confirmation ask_confirmation run_confirmed run_call run_calls
    is_cancelled is_interrupted push dispatch answer round turn_loop check script_violation review
    correct settle capped forced_company_context is_present build_system_prompt version_id open_turn
    fixed_result ship close_turn run_turn splitlines bare_call parse_lines parse_tool_call
    plain_message plain_text_messages count_words shape_violation script_violation_in
    draft_violation check_target check_request verdict self_check language_name target_name
    is_latin_script expected_script script_note language_directive voice_brevity_directive
    join_nonempty turn_directive describe_script_violation find_range disallowed_script_in
    script_of_char count_of count_char profile_from script_profile total_of dominant_from dominant
    lang_to_script language_mismatch target_language_mismatch hits romanized_language_in tag_of
    wrap_untrusted limited_until usable_providers note_error attempt complete_with_fallback
    complete_with_tools_and_fallback is_expired expired_tokens delete_all evict_expired
    request_in_memory redeem consume_in_memory is_leak after_gt html_tag sub_on sub literal marker
    collapse_newlines last_open literal_nocase skip_spaces strip word_end close_script find_close
    script_tag clean sanitize_llm_output is_voice contains lookup insert remove
deleted = refl

abbrev unconfirmed_turn : Turn String ℕ
unconfirmed_turn = record voice_turn { confirmation_token = none }

abbrev blank : TurnResult String × State String ℕ host
blank = (
  record {
    text = [];
    prompt_version = [];
    tool_call_count = 0;
    self_check_ok = true;
    self_check_reason = [];
    cancelled = false;
    pending_confirmation = none;
    error = false;
  },
  record {
    router = local_router;
    gate_state = none;
    world = 0;
    messages = [];
    tool_call_count = 0;
    trace = [];
  },
)

abbrev or_blank :
    Option (TurnResult String × State String ℕ host) → TurnResult String × State String ℕ host
or_blank none = blank
or_blank (some p) = p

abbrev done : Turn String ℕ → TurnResult String × State String ℕ host
done t = or_blank (run_turn host 4 t local_router issued_gate 0)

done_confirmed :
    run_turn host 4 voice_turn local_router issued_gate 0
    ≡ some ((done voice_turn).0, (done voice_turn).1)
unfolding mode_stem member with_forced_context truncate_context output_of args_or tool_output
    tool_message run_tool redeem_confirmation ask_confirmation run_confirmed run_call run_calls
    is_cancelled is_interrupted push dispatch answer round turn_loop check script_violation review
    correct settle capped forced_company_context is_present build_system_prompt version_id open_turn
    fixed_result ship close_turn run_turn splitlines bare_call parse_lines parse_tool_call
    plain_message plain_text_messages count_words shape_violation script_violation_in
    draft_violation check_target check_request verdict self_check language_name target_name
    is_latin_script expected_script script_note language_directive voice_brevity_directive
    join_nonempty turn_directive describe_script_violation find_range disallowed_script_in
    script_of_char count_of count_char profile_from script_profile total_of dominant_from dominant
    lang_to_script language_mismatch target_language_mismatch hits romanized_language_in tag_of
    wrap_untrusted limited_until usable_providers note_error attempt complete_with_fallback
    complete_with_tools_and_fallback is_expired expired_tokens delete_all evict_expired
    request_in_memory redeem consume_in_memory is_leak after_gt html_tag sub_on sub literal marker
    collapse_newlines last_open literal_nocase skip_spaces strip word_end close_script find_close
    script_tag clean sanitize_llm_output is_voice contains lookup insert remove
done_confirmed = refl

done_unconfirmed :
    run_turn host 4 unconfirmed_turn local_router issued_gate 0
    ≡ some ((done unconfirmed_turn).0, (done unconfirmed_turn).1)
unfolding mode_stem member with_forced_context truncate_context output_of args_or tool_output
    tool_message run_tool redeem_confirmation ask_confirmation run_confirmed run_call run_calls
    is_cancelled is_interrupted push dispatch answer round turn_loop check script_violation review
    correct settle capped forced_company_context is_present build_system_prompt version_id open_turn
    fixed_result ship close_turn run_turn splitlines bare_call parse_lines parse_tool_call
    plain_message plain_text_messages count_words shape_violation script_violation_in
    draft_violation check_target check_request verdict self_check language_name target_name
    is_latin_script expected_script script_note language_directive voice_brevity_directive
    join_nonempty turn_directive describe_script_violation find_range disallowed_script_in
    script_of_char count_of count_char profile_from script_profile total_of dominant_from dominant
    lang_to_script language_mismatch target_language_mismatch hits romanized_language_in tag_of
    wrap_untrusted limited_until usable_providers note_error attempt complete_with_fallback
    complete_with_tools_and_fallback is_expired expired_tokens delete_all evict_expired
    request_in_memory redeem consume_in_memory is_leak after_gt html_tag sub_on sub literal marker
    collapse_newlines last_open literal_nocase skip_spaces strip word_end close_script find_close
    script_tag clean sanitize_llm_output is_voice contains lookup insert remove
done_unconfirmed = refl

abbrev asked : PendingConfirmation (Option String)
asked = record { token = "fresh"; tool_name = "delete_note"; args = some "7" }

asked_unconfirmed : (done unconfirmed_turn).0.pending_confirmation ≡ some asked
unfolding mode_stem member with_forced_context truncate_context output_of args_or tool_output
    tool_message run_tool redeem_confirmation ask_confirmation run_confirmed run_call run_calls
    is_cancelled is_interrupted push dispatch answer round turn_loop check script_violation review
    correct settle capped forced_company_context is_present build_system_prompt version_id open_turn
    fixed_result ship close_turn run_turn splitlines bare_call parse_lines parse_tool_call
    plain_message plain_text_messages count_words shape_violation script_violation_in
    draft_violation check_target check_request verdict self_check language_name target_name
    is_latin_script expected_script script_note language_directive voice_brevity_directive
    join_nonempty turn_directive describe_script_violation find_range disallowed_script_in
    script_of_char count_of count_char profile_from script_profile total_of dominant_from dominant
    lang_to_script language_mismatch target_language_mismatch hits romanized_language_in tag_of
    wrap_untrusted limited_until usable_providers note_error attempt complete_with_fallback
    complete_with_tools_and_fallback is_expired expired_tokens delete_all evict_expired
    request_in_memory redeem consume_in_memory is_leak after_gt html_tag sub_on sub literal marker
    collapse_newlines last_open literal_nocase skip_spaces strip word_end close_script find_close
    script_tag clean sanitize_llm_output is_voice contains lookup insert remove
asked_unconfirmed = refl

run_turn-returns_example :
    (r : TurnResult String × State String ℕ host) × (run_turn host 4 voice_turn local_router
        issued_gate 0
      ≡ some r)
run_turn-returns_example = run_turn-returns host voice_turn local_router issued_gate 0

run_turn-budget_example :
    ((done voice_turn).0.tool_call_count ≤ 3)
    × (runs (done voice_turn).1.trace ≤ suc (done voice_turn).0.tool_call_count)
run_turn-budget_example =
    run_turn-budget host voice_turn 4 local_router issued_gate 0 (done voice_turn).0
      (done voice_turn).1 done_confirmed

is_voice-speech : is_voice Mode.speech_to_speech ≡ true
unfolding is_voice
is_voice-speech = refl

run_turn-Consented_example : Consented ("delete_note" ∷ []) (done voice_turn).1.trace
unfolding member
run_turn-Consented_example =
    run_turn-Consented host voice_turn is_voice-speech 4 local_router issued_gate 0
      (done voice_turn).0 (done voice_turn).1 refl done_confirmed

run_turn-TagFree_example : TagFree (done voice_turn).0.text
run_turn-TagFree_example =
    run_turn-TagFree host voice_turn 4 local_router issued_gate 0 (done voice_turn).0
      (done voice_turn).1 refl done_confirmed

run_turn-asks_example :
    (is_voice Mode.speech_to_speech ≡ true) × (member "delete_note" ("delete_note" ∷ []) ≡ true)
run_turn-asks_example =
    run_turn-asks host unconfirmed_turn 4 local_router issued_gate 0 (done unconfirmed_turn).0
      (done unconfirmed_turn).1 asked done_unconfirmed asked_unconfirmed

delete_note-forward :
    (name : String) (f : ToolFn String ℕ) (o : String) (w : ℕ)
    → lookup name voice_turn.tools ≡ some f
    → w ≤ (f o w).1
unfolding lookup
delete_note-forward name f o w e = elim (Bool-cases (str_eq "delete_note" name)) [
  | inl same ↦
      (let is_delete : delete_note ≡ f = cc (rw same at e) in rw (← is_delete) (omega arith))
  | inr other ↦ absurd (cc (rw other at e))
]

run_turn-once_example : irreversible_runs ("delete_note" ∷ []) (done voice_turn).1.trace ≤ 1
unfolding member
run_turn-once_example =
    run_turn-once host voice_turn (λ p ms system ts w. omega arith) delete_note-forward 4
      local_router issued_gate 0 (done voice_turn).0 (done voice_turn).1 is_voice-speech refl
      done_confirmed
