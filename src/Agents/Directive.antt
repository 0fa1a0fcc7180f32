-- ===== src/Agents/Directive.antt =====
-- agents/task_agent.py: the per-turn directives, and the wording of a violation.
use sarvam.Prelude.{
  ◌*◌, Bool, ◌&&◌, ◌||◌, not, Option, none, some, [], ◌∷◌, ◌++◌, String, Text, codes, lookup,
  length, keep, ltb, str_eq, if◌then◌else◌, is_empty,
}
use sarvam.Supervisor.Session.{is_voice, SessionState}
use sarvam.Agents.Unicode.{Unicode}

unfoldable pub language_name : String → String
unfolding lookup
language_name l =
    elim (lookup {V = String} l (
      ("en", "English")
      ∷ ("hi", "Hindi")
      ∷ ("te", "Telugu")
      ∷ ("ta", "Tamil")
      ∷ ("kn", "Kannada")
      ∷ ("ml", "Malayalam")
      ∷ ("mr", "Marathi")
      ∷ ("gu", "Gujarati")
      ∷ ("pa", "Punjabi")
      ∷ ("bn", "Bengali")
      ∷ ("or", "Odia")
      ∷ ("as", "Assamese")
      ∷ ("ur", "Urdu")
      ∷ [])) [ none ↦ l | some n ↦ n ]

-- `LANGUAGE_NAMES.get(lang, lang) if lang else "the target language"`
unfoldable pub target_name : Option String → Text
unfolding language_name
target_name none = codes "the target language"
target_name (some l) = if str_eq l "" then codes "the target language" else codes (language_name l)

unfoldable pub is_latin_script : Unicode → Text → Bool
is_latin_script u t =
    let letters = keep u.is_alpha t in
    not (is_empty letters) && ltb (8 * length letters) (10 * length (keep (λ c. ltb c 128) letters))

pub data Script : Type 0 where
  native latin : Script

expect : Unicode → Bool → Text → String → Option Script
expect u voice message lang =
    if str_eq lang "" || (str_eq lang "en" || str_eq lang "unknown")
    then none
    else if not (is_latin_script u message)
    then none
    else if voice
    then some Script.native
    else some Script.latin

unfoldable pub expected_script : Unicode → SessionState → Text → Option Script
unfolding expect
expected_script u s message = elim s.response_language [
  | none ↦ none
  | some lang ↦ expect u (is_voice s.mode) message lang
]

unfoldable pub script_note : Option Script → Text → Text
script_note none name = []
script_note (some Script.native) name =
    codes
      " The user typed in romanized Latin script, but this answer will be SPOKEN, not read — write it in "
    ++ (name
        ++ codes "'s native script so it's pronounced correctly, never in Latin/romanized letters.")
script_note (some Script.latin) name =
    codes " Write it in the same Latin/romanized script the user just typed in (a natural '"
    ++ (name
        ++ (codes "lish' style, like they did) — do NOT switch to "
            ++ (name ++ codes "'s native script.")))

abbrev tool_note : Text
tool_note =
    codes
      " (Using a tool via TOOL_CALL: {...} syntax is fine and expected when needed — that's not 'answering.')"

directive_in : Option Script → Bool → String → Text
unfolding language_name script_note
directive_in expected mixed lang =
    let name = codes (language_name lang) in
    if str_eq lang "" || (str_eq lang "unknown" || (str_eq lang "en" && not mixed))
    then []
    else if mixed
    then codes "[Answer in "
      ++ (name
          ++ (codes
                ", naturally code-mixed with English the way the user just spoke — do not answer in plain English."
              ++ (script_note expected name ++ (tool_note ++ codes "]"))))
    else codes "[Answer in "
      ++ (name
          ++ (codes ". Do not answer in English or any other language."
              ++ (script_note expected name ++ (tool_note ++ codes "]"))))

unfoldable pub language_directive : Unicode → SessionState → Text → Text
unfolding directive_in
language_directive u s message = elim s.response_language [
  | none ↦ []
  | some lang ↦ directive_in (expected_script u s message) s.is_code_mixed lang
]

abbrev brevity : Text
brevity =
    codes
      "[Keep the answer short, simple, and clear — plain words, short sentences, easy to speak aloud naturally. Answer directly — never restate or repeat the question back before answering it. If multiple questions were asked, answer each in turn without a header, and keep the SAME language and code-mixing style consistent across the entire reply, not just the start. Never repeat the same phrase, sentence, or fact more than once — if you notice yourself about to repeat something already said, stop the answer there instead.]"

unfoldable pub voice_brevity_directive : SessionState → Text
voice_brevity_directive s = if is_voice s.mode then brevity else []

-- `" ".join(d for d in (a, b) if d)`
unfoldable pub join_nonempty : Text → Text → Text
join_nonempty a b = if is_empty a then b else if is_empty b then a else a ++ (codes " " ++ b)

unfoldable pub turn_directive : Unicode → SessionState → Text → Text
turn_directive u s message =
    join_nonempty (language_directive u s message) (voice_brevity_directive s)

-- The source writes a violation as a text: the name of a script, a fixed label, or a prefix and a
-- language code.
pub data Violation : Type 0 where
  disallowed : String → Violation
  mismatch : Violation
  romanized : String → Violation

unfoldable pub describe_script_violation : Violation → SessionState → Text
describe_script_violation mismatch s =
    codes "the draft was not in "
    ++ (target_name s.response_language
        ++ codes " (the target language) — wrong language/script entirely")
describe_script_violation (romanized code) s =
    let wrong = codes (language_name code) in
    let target = target_name s.response_language in
    codes "the draft contains romanized "
    ++ (wrong
        ++ (codes " vocabulary (written in Latin letters, e.g. common "
            ++ (wrong
                ++ (codes " function words), but the target language is "
                    ++ (target
                        ++ (codes " — rewrite entirely in "
                            ++ (target
                                ++ (codes ", not "
                                    ++ (wrong
                                        ++ codes
                                            ", even though both can be written in Latin script")))))))))
describe_script_violation (disallowed script) s =
    codes "the draft used "
    ++ (codes script ++ codes " script, which no supported language ever uses")
