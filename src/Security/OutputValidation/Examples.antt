-- ===== src/Security/OutputValidation/Examples.antt =====
-- Witnesses and tests of the output validation, over the ASCII tables.
use sarvam.Prelude.{take, drop, ◌++◌, ◌≡◌, refl, Text, codes, contains}
use sarvam.Agents.Unicode.{ascii}
use sarvam.Security.OutputValidation.{
  leak_marker_1, tool_verified_marker, sanitize_llm_output, is_leak, clean, sub, sub_on, html_tag,
  after_gt, marker, literal, script_tag, literal_nocase, skip_spaces, word_end, find_close,
  close_script, strip, collapse_newlines,
}
use sarvam.Security.OutputValidation.Reply.{sanitize_llm_output-TagFree}
use sarvam.Security.OutputValidation.Tags.{TagFree}

abbrev hostile : Text
hostile = codes "Hi <script src=x>alert(1)</script><b>there</b>\n\n"

hostile_reply : sanitize_llm_output ascii hostile ≡ codes "Hi there"
unfolding sanitize_llm_output is_leak clean sub sub_on html_tag after_gt marker literal script_tag
    literal_nocase skip_spaces word_end find_close close_script strip collapse_newlines contains
hostile_reply = refl

sanitize_llm_output-TagFree_example : TagFree (sanitize_llm_output ascii hostile)
sanitize_llm_output-TagFree_example = sanitize_llm_output-TagFree ascii refl hostile

-- A marker inside of a marker: the inner one is removed, which puts the outer one together.
nested_marker :
    sanitize_llm_output ascii
      (take 5 tool_verified_marker ++ tool_verified_marker ++ drop 5 tool_verified_marker)
    ≡ tool_verified_marker
unfolding sanitize_llm_output is_leak clean sub sub_on html_tag after_gt marker literal script_tag
    literal_nocase skip_spaces word_end find_close close_script strip collapse_newlines contains
nested_marker = refl

-- A leak marker with a tag inside: it is not found, and the tag's removal puts it together.
split_leak_marker :
    sanitize_llm_output ascii (take 5 leak_marker_1 ++ codes "<b>" ++ drop 5 leak_marker_1)
    ≡ leak_marker_1
unfolding sanitize_llm_output is_leak clean sub sub_on html_tag after_gt marker literal script_tag
    literal_nocase skip_spaces word_end find_close close_script strip collapse_newlines contains
split_leak_marker = refl
