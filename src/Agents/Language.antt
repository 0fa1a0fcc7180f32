-- ===== src/Agents/Language.antt =====
-- agents/language_agent.py: scripts, and what a script says of a text's language.
--
-- A `Counter` is a dictionary in the order of first insertion. Ratios of counts are compared by
-- cross multiplication.
pub mod Script
pub mod Detect
pub mod Detected
pub mod Extract
mod Examples
use sarvam.Prelude.{
  ℕ, ◌+◌, ◌*◌, ◌-◌, Bool, true, false, ◌&&◌, ◌||◌, not, Option, none, some, List, [], ◌∷◌, map,
  String, Text, codes, contains, Dict, lookup, insert, leb, ltb, ◌==◌, str_eq, if◌then◌else◌, keep,
  any, length,
}
use sarvam.Agents.Unicode.{Unicode}

pub record Range : Type 0 where
  pub lo : ℕ
  pub hi : ℕ
  pub label : String

abbrev pub script_ranges : List Range
script_ranges =
    record { lo = 0x0600; hi = 0x06FF; label = "arabic" }
    ∷ record { lo = 0x0900; hi = 0x097F; label = "devanagari" }
    ∷ record { lo = 0x0980; hi = 0x09FF; label = "bengali" }
    ∷ record { lo = 0x0A00; hi = 0x0A7F; label = "gurmukhi" }
    ∷ record { lo = 0x0A80; hi = 0x0AFF; label = "gujarati" }
    ∷ record { lo = 0x0B00; hi = 0x0B7F; label = "oriya" }
    ∷ record { lo = 0x0B80; hi = 0x0BFF; label = "tamil" }
    ∷ record { lo = 0x0C00; hi = 0x0C7F; label = "telugu" }
    ∷ record { lo = 0x0C80; hi = 0x0CFF; label = "kannada" }
    ∷ record { lo = 0x0D00; hi = 0x0D7F; label = "malayalam" }
    ∷ []

abbrev pub disallowed_ranges : List Range
disallowed_ranges =
    record { lo = 0x4E00; hi = 0x9FFF; label = "Chinese" }
    ∷ record { lo = 0x3040; hi = 0x30FF; label = "Japanese" }
    ∷ record { lo = 0xAC00; hi = 0xD7A3; label = "Korean" }
    ∷ record { lo = 0x0400; hi = 0x04FF; label = "Cyrillic" }
    ∷ []

-- The first range that a code point lies in.
unfoldable pub find_range : List Range → ℕ → Option String
find_range [] c = none
find_range (r ∷ rs) c = if leb r.lo c && leb c r.hi then some r.label else find_range rs c

unfoldable pub disallowed_script_in : Text → Option String
unfolding find_range
disallowed_script_in [] = none
disallowed_script_in (c ∷ t) =
    let rest = disallowed_script_in t in
    elim (find_range disallowed_ranges c) [ some s ↦ some s | none ↦ rest ]

abbrev pub is_ascii_letter : ℕ → Bool
is_ascii_letter c = (leb b'a' c && leb c b'z') || (leb b'A' c && leb c b'Z')

unfoldable pub script_of_char : ℕ → Option String
unfolding find_range
script_of_char c = elim (find_range script_ranges c) [
  | some s ↦ some s
  | none ↦ if is_ascii_letter c then some "latin" else none
]

abbrev pub Profile : Type 0
Profile = Dict ℕ

unfoldable pub count_of : String → Profile → ℕ
count_of s p = elim (lookup s p) [ none ↦ 0 | some n ↦ n ]

-- `if script: profile[script] += 1`
unfoldable pub count_char : Option String → Profile → Profile
count_char none p = p
count_char (some s) p = insert s (count_of s p + 1) p

unfoldable pub profile_from : Profile → Text → Profile
profile_from p [] = p
profile_from p (c ∷ t) = profile_from (count_char (script_of_char c) p) t

unfoldable pub script_profile : Text → Profile
script_profile = profile_from []

-- `sum(profile.values())`
unfoldable pub total_of : Profile → ℕ
total_of [] = 0
total_of ((s, n) ∷ p) = n + total_of p

-- `max(profile.items(), key=count)`: the first of the largest. The default is never met.
unfoldable pub dominant_from : String × ℕ → Profile → String × ℕ
dominant_from best [] = best
dominant_from best ((s, n) ∷ p) = dominant_from (if ltb best.1 n then (s, n) else best) p

unfoldable pub dominant : Profile → String × ℕ
unfolding dominant_from
dominant [] = ("", 0)
dominant (x ∷ p) = dominant_from x p

unfoldable pub lang_to_script : String → Option String
unfolding lookup
lang_to_script l = lookup l (
    ("ur", "arabic")
    ∷ ("hi", "devanagari")
    ∷ ("mr", "devanagari")
    ∷ ("bn", "bengali")
    ∷ ("as", "bengali")
    ∷ ("pa", "gurmukhi")
    ∷ ("gu", "gujarati")
    ∷ ("or", "oriya")
    ∷ ("ta", "tamil")
    ∷ ("te", "telugu")
    ∷ ("kn", "kannada")
    ∷ ("ml", "malayalam")
    ∷ [])

-- `not target_language or target_language == "unknown"`
abbrev pub no_target : Option String → Bool
no_target none = true
no_target (some l) = str_eq l "" || str_eq l "unknown"

abbrev is_expected : Option String → Bool → String → Bool
is_expected none mixed s = mixed && str_eq s "latin"
is_expected (some e) mixed s = str_eq s e || (mixed && str_eq s "latin")

unfoldable pub language_mismatch : Profile → String → Bool → Bool
language_mismatch p target mixed =
    let total = total_of p in
    let best = dominant p in
    if ltb total 8
    then false
    else if str_eq target "en"
    then ltb (3 * total) (10 * (total - count_of "latin" p))
    else not (is_expected (lang_to_script target) mixed best.0) && ltb total (2 * best.1)

unfoldable pub target_language_mismatch : Text → Option String → Bool → Bool
target_language_mismatch text none mixed = false
target_language_mismatch text (some target) mixed =
    if no_target (some target) then false else language_mismatch (script_profile text) target mixed

-- How many of the markers occur in the text.
unfoldable pub hits : Text → List String → ℕ
unfolding contains
hits text markers = length (keep (λ m. contains text (codes m)) markers)

abbrev pub hindi_markers : List String
hindi_markers =
    "hai" ∷ "hain" ∷ "karne" ∷ "karna" ∷ "kaise" ∷ "kyunki" ∷ "matlab" ∷ "chahiye" ∷ "wala" ∷ "wali"
    ∷ "unka" ∷ "iska" ∷ "uska" ∷ "nahi" ∷ "aur" ∷ "bilkul" ∷ "shayad" ∷ "lekin" ∷ []

abbrev is_language : String → Option String → Bool
is_language l none = false
is_language l (some m) = str_eq l m

module _ (u : Unicode) where
  -- The dictionary of markers has the one entry `hi`.
  unfoldable pub romanized_language_in : Text → Option String → Option String
  unfolding hits
  romanized_language_in text exclude =
      if is_language "hi" exclude
      then none
      else if leb 2 (hits (u.lower text) hindi_markers)
      then some "hi"
      else none

unfoldable pub resolve_tts_voice_language : Text → Option String → String
resolve_tts_voice_language user_message none = "en"
resolve_tts_voice_language user_message (some detected) =
    let p = script_profile user_message in
    let total = total_of p in
    if str_eq detected "" || (str_eq detected "en" || str_eq detected "unknown")
    then "en"
    else if total == 0
    then detected
    else if ltb total (2 * (total - count_of "latin" p))
    then detected
    else "en"
