-- ===== src/Agents/Language/Detect.antt =====
-- agents/language_agent.py: `detect_language`, by script, by keywords, and at last by a model.
--
-- Confidences are in hundredths; a model's confidence is read in hundredths too. A set of markers is
-- a list. `Verdicts` stands for the JSON library on a model's answer.
use sarvam.Prelude.{
  ℕ, ◌+◌, ◌*◌, ◌-◌, min, Bool, true, false, ◌&&◌, ◌||◌, not, Option, none, some, List, [], ◌∷◌,
  ◌++◌, String, Text, codes, Dict, lookup, leb, ltb, ◌==◌, str_eq, if◌then◌else◌, keep, any, length,
  is_empty,
}
use sarvam.Agents.Unicode.{Unicode}
use sarvam.Agents.Language.{count_of, script_profile, total_of, dominant, hits}
use sarvam.Agents.ToolCall.{Loaded, object}
use sarvam.LlmAdapter.Messages.{user, Outcome, ok, err, Providers}
use sarvam.LlmAdapter.Router.{Router, Done, complete_with_fallback}

abbrev pub supported_languages : List String
supported_languages =
    "en" ∷ "hi" ∷ "te" ∷ "ta" ∷ "kn" ∷ "ml" ∷ "mr" ∷ "gu" ∷ "pa" ∷ "bn" ∷ "or" ∷ "as" ∷ "ur" ∷ []

-- `lang in SUPPORTED_LANGUAGES`
unfoldable pub is_supported : String → Bool
is_supported l = any (λ s. str_eq l s) supported_languages

abbrev pub low_confidence_threshold : ℕ
low_confidence_threshold = 50

unfoldable pub is_low_confidence : Option ℕ → Bool
is_low_confidence none = true
is_low_confidence (some c) = ltb c low_confidence_threshold

pub record LanguageDetectionResult : Type 0 where
  pub language : String
  pub confidence : ℕ
  pub is_code_mixed : Bool

abbrev hi_markers : List String
hi_markers = "है" ∷ "हैं" ∷ "आप" ∷ "कैसे" ∷ "नहीं" ∷ "क्या" ∷ []

abbrev mr_markers : List String
mr_markers = "आहे" ∷ "आहात" ∷ "तुम्ही" ∷ "काय" ∷ "नाही" ∷ "मी" ∷ []

-- U+09F0 and U+09F1.
abbrev is_assamese_only : ℕ → Bool
is_assamese_only c = (c == 0x09F0) || (c == 0x09F1)

-- A language with the confidence that is left of 0.9 after the doubt between two languages, rounded
-- to two decimals: 0.9, 0.68 and 0.36 of 1.0, 0.75 and 0.4; 0.77 of 0.85.
unfoldable pub disambiguate_devanagari : Text → String × ℕ
unfolding hits
disambiguate_devanagari text =
    let hi = hits text hi_markers in
    let mr = hits text mr_markers in
    if (hi == 0) && (mr == 0)
    then ("hi", 36)
    else if leb mr hi
    then ("hi", if mr == 0 then 90 else 68)
    else ("mr", if hi == 0 then 90 else 68)

unfoldable pub disambiguate_bengali : Text → String × ℕ
disambiguate_bengali text = if any is_assamese_only text then ("as", 90) else ("bn", 77)

abbrev pub script_langs : Dict String
script_langs =
    ("arabic", "ur")
    ∷ ("gurmukhi", "pa")
    ∷ ("gujarati", "gu")
    ∷ ("oriya", "or")
    ∷ ("tamil", "ta")
    ∷ ("telugu", "te")
    ∷ ("kannada", "kn")
    ∷ ("malayalam", "ml")
    ∷ []

-- `_SCRIPT_TO_LANG[script]`. A missing key, where Python raises, does not occur: every script that
-- `script_of_char` gives is Latin, ambiguous, or in the table (`scripts_covered` in Examples).
unfoldable pub script_to_lang : String → String
script_to_lang s = elim (lookup s script_langs) [ none ↦ "ml" | some l ↦ l ]

unfoldable pub language_of_script : String → Text → String × ℕ
unfolding script_to_lang disambiguate_devanagari disambiguate_bengali
language_of_script script text =
    if str_eq script "devanagari"
    then disambiguate_devanagari text
    else if str_eq script "bengali"
    then disambiguate_bengali text
    else (script_to_lang script, 90)

abbrev result_of : String × ℕ → Bool → LanguageDetectionResult
result_of l mixed = record { language = l.0; confidence = l.1; is_code_mixed = mixed }

unfoldable pub script_based_detect : Text → Option LanguageDetectionResult
script_based_detect text =
    let p = script_profile text in
    let indic = keep (λ e. not (str_eq e.0 "latin")) p in
    let latin = count_of "latin" p in
    if total_of p == 0
    then none
    else if is_empty indic
    then none
    else some (
        result_of (language_of_script (dominant indic).0 text)
          (leb 2 latin && ltb (15 * total_of p) (100 * latin)))

abbrev telugu_markers : List String
telugu_markers =
    "vasthunnava" ∷ "vachindi" ∷ "enti" ∷ "chesav" ∷ "cheppu" ∷ "unnav" ∷ "evaru" ∷ "epudu"
    ∷ "ayindhi" ∷ "ayyindi" ∷ "undi" ∷ "chesthundi" ∷ "ante" ∷ []

abbrev en_stopwords : List String
en_stopwords =
    "the" ∷ "is" ∷ "are" ∷ "you" ∷ "how" ∷ "what" ∷ "please" ∷ "thanks" ∷ "hello" ∷ "hi" ∷ "hey"
    ∷ "yes" ∷ "no" ∷ []

abbrev is_word_char : ℕ → Bool
is_word_char c = (leb b'a' c && leb c b'z') || ((leb b'A' c && leb c b'Z') || (c == 39))

abbrev grow : ℕ → List Text → List Text
grow c [] = (c ∷ []) ∷ []
grow c (w ∷ ws) = (c ∷ w) ∷ ws

-- `re.findall(r"[a-zA-Z']+", text)`
unfoldable pub word_runs : Text → List Text
word_runs [] = []
word_runs (c ∷ []) = if is_word_char c then (c ∷ []) ∷ [] else []
word_runs (c ∷ d ∷ t) =
    let rest = word_runs (d ∷ t) in
    if is_word_char c then (if is_word_char d then grow c rest else (c ∷ []) ∷ rest) else rest

abbrev text_eq : Text → Text → Bool
text_eq [] [] = true
text_eq [] (y ∷ ys) = false
text_eq (x ∷ xs) [] = false
text_eq (x ∷ xs) (y ∷ ys) = (x == y) && text_eq xs ys

module _ (u : Unicode) where
  unfoldable pub romanized_keyword_detect : Text → Option LanguageDetectionResult
  unfolding hits
  romanized_keyword_detect text =
      let n = hits (u.lower text) telugu_markers in
      if n == 0 then none else some (result_of ("te", min 85 (50 + 15 * n)) true)

  unfoldable pub plain_english_detect : Text → Option LanguageDetectionResult
  unfolding word_runs
  plain_english_detect text =
      let n =
        length
          (keep (λ w. any (λ s. text_eq w (codes s)) en_stopwords) (word_runs (u.lower text))) in
      if n == 0 then none else some (result_of ("en", min 90 (50 + 15 * n)) false)

  -- The deterministic stages: the first that finds something.
  unfoldable pub detect_by_rules : Text → Option LanguageDetectionResult
  detect_by_rules text = elim (script_based_detect text) [
    | some r ↦ some r
    | none ↦ elim (romanized_keyword_detect text) [
      | some r ↦ some r
      | none ↦ plain_english_detect text
    ]
  ]

-- `raw.find("{")`, as the text from there on.
unfoldable pub from_brace : Text → Option Text
from_brace [] = none
from_brace (c ∷ t) = if c == b'{' then some (c ∷ t) else from_brace t

abbrev cons_some : ℕ → Option Text → Option Text
cons_some c none = none
cons_some c (some t) = some (c ∷ t)

-- The loop that counts the depth of the braces, up to the brace that closes the first one.
unfoldable pub closed_at : ℕ → Text → Option Text
closed_at depth [] = none
closed_at depth (c ∷ t) =
    let deeper = closed_at (depth + 1) t in
    let back = closed_at (depth - 1) t in
    let level = closed_at depth t in
    if c == b'{'
    then cons_some c deeper
    else if c == b'}'
    then (if depth == 1 then some (c ∷ []) else cons_some c back)
    else cons_some c level

unfoldable pub extract_json_object : Text → Option Text
extract_json_object raw = elim (from_brace raw) [ none ↦ none | some t ↦ closed_at 0 t ]

abbrev classify_system : Text
classify_system =
    codes
      "You are a precise language identification classifier for a voice assistant supporting these ISO 639-1 codes: en, hi, te, ta, kn, ml, mr, gu, pa, bn, or, as, ur — including code-mixed input. Reply with strict JSON only, no prose: {\"language\": \"<code>\", \"confidence\": <0-1 float>, \"is_code_mixed\": <bool>}."

-- What the classifier's answer says: `language` is none where it is missing or no text,
-- `confidence` where it is no number; a missing confidence is 0.7.
pub record Verdicts (Obj : Type 0) : Type 0 where
  pub loads : Text → Loaded Obj
  pub language : Obj → Option String
  pub confidence : Obj → Option ℕ
  pub is_code_mixed : Obj → Bool

module _ {Obj : Type 0} (v : Verdicts Obj) where
  unfoldable pub verdict_of : Loaded Obj → Option LanguageDetectionResult
  verdict_of (object o) = elim (v.language o) [
    | none ↦ none
    | some l ↦ elim (is_supported l) [
      | false ↦ none
      | true ↦ elim (v.confidence o) [
        | none ↦ none
        | some c ↦ some (result_of (l, c) (v.is_code_mixed o))
      ]
    ]
  ]
  verdict_of _ = none

  unfoldable pub read_answer : Outcome Text → Option LanguageDetectionResult
  read_answer (err e) = none
  read_answer (ok raw) = elim (extract_json_object raw) [
    | none ↦ none
    | some json ↦ verdict_of (v.loads json)
  ]

  -- `f"{text}{hint_line}"`
  unfoldable pub classify_request : Text → Option String → Text
  classify_request text none = text
  classify_request text (some hint) =
      if str_eq hint ""
      then text
      else text ++ (codes "\nUnverified STT language hint (do not trust blindly): " ++ codes hint)

abbrev beats : Option LanguageDetectionResult → LanguageDetectionResult → Bool
beats none l = true
beats (some r) l = ltb r.confidence l.confidence

abbrev pub better_of :
    Option LanguageDetectionResult → Option LanguageDetectionResult → Option LanguageDetectionResult
better_of r none = r
better_of r (some l) = if beats r l then some l else r

abbrev pub or_unknown : Option LanguageDetectionResult → LanguageDetectionResult
or_unknown none = record { language = "unknown"; confidence = 20; is_code_mixed = false }
or_unknown (some r) = r

-- Does the rules' result call for a model?
abbrev pub needs_model : Option LanguageDetectionResult → Bool
needs_model none = true
needs_model (some r) = ltb r.confidence low_confidence_threshold

module _ {Obj W : Type 0} (u : Unicode) (v : Verdicts Obj) (ps : Providers Obj W) where
  open ps use {P}

  unfoldable pub llm_classify :
      Text → Option String → Router P → W → Done (Option LanguageDetectionResult) P W
  llm_classify text hint r w =
      let done =
        complete_with_fallback ps (user (classify_request v text hint) ∷ []) (some classify_system)
          (some 60) r w in
      record { outcome = read_answer v done.outcome; router = done.router; world = done.world }

  -- The router is optional.
  unfoldable pub detect_language :
      Text
      → Option String
      → Option (Router P)
      → W
      → LanguageDetectionResult × (Option (Router P)) × W
  detect_language text hint none w = (or_unknown (detect_by_rules u text), none, w)
  detect_language text hint (some r) w =
      let found = detect_by_rules u text in
      let asked = llm_classify text hint r w in
      if needs_model found
      then (or_unknown (better_of found asked.outcome), some asked.router, asked.world)
      else (or_unknown found, some r, w)
