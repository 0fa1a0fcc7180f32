-- ===== src/Agents/SelfCheck.antt =====
-- agents/task_agent.py: `_self_check`, the bounded review of a draft.
pub mod Verdict
mod Examples
use sarvam.Prelude.{
  ℕ, suc, Bool, true, false, not, Option, none, some, List, [], ◌∷◌, ◌++◌, String, Text, codes,
  contains, starts_with, ltb, str_eq, if◌then◌else◌, any,
}
use sarvam.Agents.Unicode.{Unicode}
use sarvam.Agents.Directive.{Script, target_name, is_latin_script}
use sarvam.Supervisor.Session.{Mode, is_voice}
use sarvam.LlmAdapter.Messages.{user, Outcome, ok, err, Providers}
use sarvam.LlmAdapter.Router.{Router, Done, complete_with_fallback}
use sarvam.Security.OutputValidation.{strip}

-- `len(text.split())`: `inside` tells whether the character before was part of a word.
unfoldable pub count_words : Unicode → Bool → Text → ℕ
count_words u inside [] = 0
count_words u inside (c ∷ t) =
    let rest = count_words u (not (u.is_space c)) t in
    if u.is_space c then rest else if inside then rest else suc rest

abbrev pub markdown_markers : List Text
markdown_markers = codes "**" ∷ codes "##" ∷ codes "- " ∷ codes "* " ∷ codes "```" ∷ []

abbrev pub voice_ceiling : ℕ
voice_ceiling = 300

abbrev pub text_ceiling : ℕ
text_ceiling = 500

-- The deterministic checks: the reason of a violation, if there is one.
unfoldable pub shape_violation : Unicode → Bool → Text → Option Text
unfolding count_words contains
shape_violation u voice draft =
    if voice
    then if any (λ m. contains draft m) markdown_markers
      then some (codes "voice-mode formatting violation: markdown present")
      else if ltb voice_ceiling (count_words u false draft)
      then some (codes "voice-mode length violation")
      else none
    else if ltb text_ceiling (count_words u false draft)
    then some (codes "text-mode length violation")
    else none

unfoldable pub script_violation_in : Unicode → Option Script → Option String → Text → Option Text
script_violation_in u none language draft = none
script_violation_in u (some Script.native) language draft =
    if is_latin_script u draft
    then some (
        codes "voice-mode script violation: answered in Latin/romanized script instead of "
        ++ (target_name language ++ codes "'s native script — will be mispronounced by TTS"))
    else none
script_violation_in u (some Script.latin) language draft =
    if is_latin_script u draft
    then none
    else some (
        codes "script violation: answered in "
        ++ (target_name language
            ++ codes
                "'s native script instead of the romanized Latin script the user typed in and expects back"))

abbrev or_else : Option Text → Option Text → Option Text
or_else none b = b
or_else (some a) b = some a

unfoldable pub draft_violation : Unicode → Bool → Option Script → Option String → Text → Option Text
unfolding shape_violation script_violation_in
draft_violation u voice expected language draft =
    or_else (shape_violation u voice draft) (script_violation_in u expected language draft)

abbrev pub self_check_system : Text
self_check_system =
    codes
      "You are a strict reviewer, not the assistant. You will be shown a draft reply, the mode it must obey, and the language the user should be answered in. Reply with exactly one line: \"OK\" if the draft is compliant, or \"VIOLATION: <short reason>\" if not. VOICE_MODE rules: no markdown, no emoji, no parentheticals. TEXT_MODE rules: markdown is allowed. LENGTH rule (both modes): the answer should be as long as the question genuinely requires — do NOT reject a long answer just for being long if every sentence carries real information the user asked for. Reject ONLY if the draft pads with filler, restates the question, repeats the same point more than once, or is unreasonably long for what was actually asked (as a hard safety ceiling against a genuinely malfunctioning response: over ~300 words for VOICE_MODE, or over ~500 words for TEXT_MODE, is a violation regardless of content, since that's no longer a normal complete answer). LANGUAGE rule (both modes): reject ONLY if the draft is answered in a clearly different language than the target (e.g. target is Telugu or Telugu-English code-mixed, but the draft is plain, unrelated English) — natural code-mixing that matches how the target language is actually spoken is NOT a violation."

unfoldable pub check_target : Option String → Bool → Text
check_target language mixed =
    let base : Text = elim language [
      | none ↦ codes "unspecified"
      | some l ↦ if str_eq l "" then codes "unspecified" else codes l
    ] in
    if mixed then base ++ codes " (code-mixed with English)" else base

unfoldable pub check_request : Bool → Option String → Bool → Text → Text
unfolding check_target
check_request voice language mixed draft =
    codes "MODE: "
    ++ ((if voice then codes "VOICE" else codes "TEXT")
        ++ (codes "\nTARGET_LANGUAGE: "
            ++ (check_target language mixed ++ (codes "\nDRAFT:\n" ++ draft))))

unfoldable pub verdict : Unicode → Text → Bool × Text
verdict u reply =
    let r = strip u reply in if starts_with (u.upper r) (codes "OK") then (true, []) else (false, r)

abbrev judged_reply : Unicode → Outcome Text → Outcome (Bool × Text)
judged_reply u (ok t) = ok (verdict u t)
judged_reply u (err e) = err e

module _ {Obj W : Type 0} (u : Unicode) (ps : Providers Obj W) where
  open ps use {P}

  unfoldable pub self_check :
      Text
      → Mode
      → Option String
      → Bool
      → Option Script
      → Router P
      → W
      → Done (Outcome (Bool × Text)) P W
  self_check draft mode language mixed expected r w =
      let done =
        complete_with_fallback ps (user (check_request (is_voice mode) language mixed draft) ∷ [])
          (some self_check_system) (some 60) r w in
      elim (draft_violation u (is_voice mode) expected language draft) [
        | some reason ↦ record { outcome = ok (false, reason); router = r; world = w }
        | none ↦ record {
          outcome = judged_reply u done.outcome;
          router = done.router;
          world = done.world;
        }
      ]
