-- ===== src/Agents/Language/Detected.antt =====
-- What the detection of a language gives.
use sarvam.Prelude.{
  ℕ, ◌≤◌, ◌<◌, ◌≡◌, ◌⊎◌, inl, inr, refl, Bool, true, false, Option, none, some, [], ◌∷◌, String,
  Text, All, Dict, str_eq, ltb, lookup, Bool-cases, Option-cases, arith, if◌then◌else◌,
}
use sarvam.Agents.Unicode.{Unicode}
use sarvam.Agents.ToolCall.{Loaded, malformed, object, other}
use sarvam.Agents.Language.Detect.{
  is_supported, script_langs, script_to_lang, LanguageDetectionResult, Verdicts,
  disambiguate_devanagari, disambiguate_bengali, language_of_script, script_based_detect,
  romanized_keyword_detect, plain_english_detect, detect_by_rules, verdict_of, read_answer,
  better_of, or_unknown, needs_model, llm_classify, detect_language,
}
use sarvam.LlmAdapter.Messages.{Outcome, ok, err, Providers}
use sarvam.LlmAdapter.Router.{Router}

abbrev all_supported : Option LanguageDetectionResult → Bool
all_supported none = true
all_supported (some r) = is_supported r.language

lookup-All {ℓ} :
    {V : Type 0} (P : V → Type ℓ) (d : Dict V) (k : String) (v : V)
    → All (λ e. P e.1) d
    → lookup k d ≡ some v
    → P v
unfolding lookup
lookup-All P [] k v h e = cc
lookup-All P ((j, x) ∷ d) k v h e = elim (Bool-cases (str_eq j k)) [
  | inl same ↦ let is_it : x ≡ v = cc (rw same at e) in rw (← is_it) h.0
  | inr differs ↦ lookup-All P d k v h.1 (rw differs at e)
]

langs-supported : All {A = String × String} (λ v. is_supported v.1 ≡ true) script_langs
unfolding is_supported
langs-supported = (refl, (refl, (refl, (refl, (refl, (refl, (refl, (refl, tt))))))))

script_to_lang-supported : (s : String) → is_supported (script_to_lang s) ≡ true
unfolding script_to_lang
script_to_lang-supported s = elim (Option-cases (lookup s script_langs)) [
  | inl e ↦ rw (e, script_to_lang) (unfold is_supported in refl)
  | inr (l, e) ↦
      rw (e, script_to_lang)
        (lookup-All (λ v. is_supported v ≡ true) script_langs s l langs-supported e)
]

if-supported :
    (b : Bool) (x y : String × ℕ)
    → is_supported x.0 ≡ true
    → is_supported y.0 ≡ true
    → is_supported (if b then x else y).0 ≡ true
if-supported true x y h k = h
if-supported false x y h k = k

languages :
    (is_supported "hi" ≡ true)
    × (is_supported "mr" ≡ true)
    × (is_supported "bn" ≡ true)
    × (is_supported "as" ≡ true)
    × (is_supported "te" ≡ true)
    × (is_supported "en" ≡ true)
unfolding is_supported
languages = (refl, refl, refl, refl, refl, refl)

devanagari-supported : (text : Text) → is_supported (disambiguate_devanagari text).0 ≡ true
unfolding disambiguate_devanagari
devanagari-supported text = ground (arith, languages)

bengali-supported : (text : Text) → is_supported (disambiguate_bengali text).0 ≡ true
unfolding disambiguate_bengali
bengali-supported text = ground (arith, languages)

language_of_script-supported :
    (script : String) (text : Text) → is_supported (language_of_script script text).0 ≡ true
unfolding language_of_script
language_of_script-supported script text =
    if-supported _ _ _ (devanagari-supported text)
      (if-supported _ _ _ (bengali-supported text) (script_to_lang-supported script))

first-supported :
    (a b : Option LanguageDetectionResult)
    → all_supported a ≡ true
    → all_supported b ≡ true
    → all_supported (elim a [ some r ↦ some r | none ↦ b ]) ≡ true
first-supported none b h k = k
first-supported (some r) b h k = h

script-supported : (text : Text) → all_supported (script_based_detect text) ≡ true
unfolding script_based_detect
script-supported text = grind (arith, language_of_script-supported)

romanized-supported :
    (u : Unicode) (text : Text) → all_supported (romanized_keyword_detect u text) ≡ true
unfolding romanized_keyword_detect
romanized-supported u text = ground (arith, languages)

english-supported : (u : Unicode) (text : Text) → all_supported (plain_english_detect u text) ≡ true
unfolding plain_english_detect
english-supported u text = ground (arith, languages)

rules-supported : (u : Unicode) (text : Text) → all_supported (detect_by_rules u text) ≡ true
unfolding detect_by_rules
rules-supported u text = first-supported (script_based_detect text) _ (script-supported text) (
    first-supported (romanized_keyword_detect u text) (plain_english_detect u text)
      (romanized-supported u text) (english-supported u text))

module _ {Obj : Type 0} (v : Verdicts Obj) where
  verdict-supported : (l : Loaded Obj) → all_supported (verdict_of v l) ≡ true
  unfolding verdict_of
  verdict-supported (object o) = ground arith
  verdict-supported malformed = refl
  verdict-supported other = refl

  answer-supported : (o : Outcome Text) → all_supported (read_answer v o) ≡ true
  unfolding read_answer
  answer-supported (err e) = refl
  answer-supported (ok raw) = grind (arith, verdict-supported)

all_or_unknown :
    (o : Option LanguageDetectionResult)
    → all_supported o ≡ true
    → (is_supported (or_unknown o).language ≡ true)
      ⊎ (or_unknown o ≡ record { language = "unknown"; confidence = 20; is_code_mixed = false })
all_or_unknown none h = inr refl
all_or_unknown (some r) h = inl h

better-supported :
    (a b : Option LanguageDetectionResult)
    → all_supported a ≡ true
    → all_supported b ≡ true
    → all_supported (better_of a b) ≡ true
better-supported a none h k = h
better-supported none (some l) h k = k
better-supported (some r) (some l) h k = ground arith

settled :
    (found : LanguageDetectionResult) (o : Option LanguageDetectionResult)
    → (or_unknown (better_of (some found) o) ≡ found)
      ⊎ (found.confidence < (or_unknown (better_of (some found) o)).confidence)
settled found none = inl refl
settled found (some l) = elim (Bool-cases (ltb found.confidence l.confidence)) [
  | inl more ↦ inr (rw more (ground arith))
  | inr less ↦ inl (rw less)
]

module _ {Obj W : Type 0} (u : Unicode) (v : Verdicts Obj) (ps : Providers Obj W) where
  -- The language that is detected is one of the thirteen supported ones, whatever the model answers;
  -- or nothing was found, and it is reported as unknown, at a confidence of 0.2.
  pub detect_language-supported :
      (text : Text) (hint : Option String) (r : Option (Router ps.P)) (w : W)
      → (is_supported (detect_language u v ps text hint r w).0.language ≡ true)
        ⊎ ((detect_language u v ps text hint r w).0
            ≡ record { language = "unknown"; confidence = 20; is_code_mixed = false })
  unfolding detect_language llm_classify
  detect_language-supported text hint none w = all_or_unknown _ (rules-supported u text)
  detect_language-supported text hint (some r) w =
      elim (Bool-cases (needs_model (detect_by_rules u text))) [
        | inl ask ↦
            rw (ask, detect_language)
              (all_or_unknown _ (
                better-supported (detect_by_rules u text) _ (rules-supported u text)
                  (answer-supported v _)))
        | inr known ↦ rw (known, detect_language) (all_or_unknown _ (rules-supported u text))
      ]

  -- What the rules find with a confidence of at least 0.5 is the result: no model is asked, the router
  -- and the world stay as they were, and the hint has no part in it. What they find with less is kept
  -- unless the model is more confident.
  pub detect_language-rules :
      (text : Text) (hint : Option String) (r : Option (Router ps.P)) (w : W)
      (found : LanguageDetectionResult)
      → detect_by_rules u text ≡ some found
      → (50 ≤ found.confidence → detect_language u v ps text hint r w ≡ (found, r, w))
        × ((detect_language u v ps text hint r w).0 ≡ found
            ⊎ found.confidence < (detect_language u v ps text hint r w).0.confidence)
  unfolding detect_language
  detect_language-rules text hint none w found e = rw e (λ k. refl, inl refl)
  detect_language-rules text hint (some r) w found e = elim (Bool-cases (ltb found.confidence 50)) [
    | inl low ↦ rw (e, low, detect_language) (λ k. absurd (ground arith), settled found _)
    | inr high ↦ rw (e, high, detect_language) (λ k. refl, inl refl)
  ]
