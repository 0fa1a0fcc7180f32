-- ===== src/Agents/Language/Examples.antt =====
-- Tests and witnesses of the script checks.
use sarvam.Prelude.{
  ℕ, suc, ◌+◌, ◌≤◌, ◌<◌, ◌≡◌, ◌⊎◌, ◌≢◌, inl, inr, refl, true, false, Option, none, some, String, [],
  ◌∷◌, ◌++◌, Text, codes, lookup, All, arith,
}
use sarvam.Agents.Unicode.{ascii}
use sarvam.Agents.ToolCall.{object}
use sarvam.Agents.Language.Detect.{
  Verdicts, LanguageDetectionResult, script_langs, is_supported, detect_language, detect_by_rules,
  extract_json_object, script_based_detect, romanized_keyword_detect, plain_english_detect,
  word_runs,
}
use sarvam.Agents.Language.Detected.{detect_language-supported, detect_language-rules}
use sarvam.Agents.Language.Extract.{Balanced, nil, plain, braced, extract_json_object-braced}
use sarvam.LlmAdapter.Messages.{Providers, ok}
use sarvam.LlmAdapter.Router.{Router}
use sarvam.Agents.Language.{
  disallowed_script_in, find_range, disallowed_ranges, script_ranges, script_profile, count_of,
}

-- Three Telugu letters between two Latin ones.
abbrev mixed : Text
mixed = b'o' ∷ 0x0C28 ∷ 0x0C3E ∷ 0x0C15 ∷ b'k' ∷ []

no_foreign_letter : disallowed_script_in mixed ≡ none
unfolding disallowed_script_in find_range
no_foreign_letter = refl

-- Every script of the ranges is ambiguous or in the table of languages.
scripts_covered :
    All
      (λ r.
        ((r.label ≡ "devanagari") ⊎ (r.label ≡ "bengali")) ⊎ (lookup r.label script_langs ≢ none))
      script_ranges
unfolding lookup
scripts_covered = (
  inr (λ e. cc),
  (
    inl (inl refl),
    (
      inl (inr refl),
      (
        inr (λ e. cc),
        (
          inr (λ e. cc),
          (inr (λ e. cc), (inr (λ e. cc), (inr (λ e. cc), (inr (λ e. cc), (inr (λ e. cc), tt))))),
        ),
      ),
    ),
  ),
)

foreign_letter : disallowed_script_in (b'o' ∷ 0x4E2D ∷ b'k' ∷ []) ≡ some "Chinese"
unfolding disallowed_script_in find_range
foreign_letter = refl

-- A classifier that always answers Hindi, with a confidence of 0.8.
abbrev hindi : Verdicts String
hindi = record {
  loads = λ t. object "hi";
  language = λ o. some o;
  confidence = λ o. some 80;
  is_code_mixed = λ o. false;
}

abbrev classifier : Providers String ℕ
classifier = record {
  P = ℕ;
  name = λ p. "local";
  clock = λ w. w;
  complete = λ p messages system max_tokens w. (ok (codes "Sure: {}."), suc w);
  complete_with_tools =
      λ p messages system tools w. (ok (record { text = []; tool_calls = [] }), suc w);
  stream = λ p messages system w. (record { chunks = []; failure = none }, w);
}

abbrev one_router : Router ℕ
one_router = record { providers = 0 ∷ []; rate_limited_until = [] }

greeting :
    detect_by_rules ascii (codes "hello, thanks")
    ≡ some (record { language = "en"; confidence = 80; is_code_mixed = false })
unfolding detect_by_rules script_based_detect romanized_keyword_detect plain_english_detect
    word_runs sarvam.Agents.Language.total_of script_profile sarvam.Agents.Language.profile_from
    sarvam.Agents.Language.count_char sarvam.Agents.Language.script_of_char sarvam.Prelude.insert
    count_of sarvam.Prelude.lookup
greeting = refl

detect_language-supported_example :
    (is_supported
        (detect_language ascii hindi classifier (codes "zzz") none (some one_router) 0).0.language
      ≡ true)
    ⊎ ((detect_language ascii hindi classifier (codes "zzz") none (some one_router) 0).0
        ≡ record { language = "unknown"; confidence = 20; is_code_mixed = false })
detect_language-supported_example =
    detect_language-supported ascii hindi classifier (codes "zzz") none (some one_router) 0

abbrev english : LanguageDetectionResult
english = record { language = "en"; confidence = 80; is_code_mixed = false }

detect_language-rules_example :
    (50 ≤ english.confidence
      → detect_language ascii hindi classifier (codes "hello, thanks") none (some one_router) 0
        ≡ (english, some one_router, 0))
    × ((detect_language ascii hindi classifier (codes "hello, thanks") none (some one_router) 0).0
          ≡ english
        ⊎ english.confidence
          < (detect_language ascii hindi classifier
              (codes "hello, thanks")
              none
              (some one_router)
              0).0.confidence)
detect_language-rules_example =
    detect_language-rules ascii hindi classifier (codes "hello, thanks") none (some one_router) 0
      english greeting

-- `a{x}y` inside the outer braces.
nested : Balanced (b'a' ∷ (b'{' ∷ (b'x' ∷ []) ++ b'}' ∷ (b'y' ∷ [])))
nested =
    plain (omega arith) (omega arith)
      (braced (plain (omega arith) (omega arith) nil) (plain (omega arith) (omega arith) nil))

extract_json_object-braced_example :
    extract_json_object (
      codes "So: "
      ++ (b'{' ∷ ((b'a' ∷ (b'{' ∷ (b'x' ∷ []) ++ b'}' ∷ (b'y' ∷ []))) ++ (b'}' ∷ codes " done"))))
    ≡ some (b'{' ∷ (b'a' ∷ (b'{' ∷ (b'x' ∷ []) ++ b'}' ∷ (b'y' ∷ []))) ++ b'}' ∷ [])
extract_json_object-braced_example =
    extract_json_object-braced (codes "So: ") (b'a' ∷ (b'{' ∷ (b'x' ∷ []) ++ b'}' ∷ (b'y' ∷ [])))
      (codes " done") (omega arith, (omega arith, (omega arith, (omega arith, tt)))) nested
