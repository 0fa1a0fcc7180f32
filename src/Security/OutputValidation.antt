-- ===== src/Security/OutputValidation.antt =====
-- security/output_validation.py: what is taken out of a model's reply before it reaches the client.
--
-- The two regular expressions are modelled as the leftmost matches that `re.sub` takes; `\s` and
-- `\b` ask the interpreter's tables. Case is folded for the ASCII letters of `script`.
pub mod Tags
pub mod Reply
mod Examples
use sarvam.Prelude.{
  ℕ, zero, suc, ◌+◌, ◌-◌, ◌≡◌, Bool, true, false, ◌&&◌, ◌||◌, not, Option, none, some, List, [],
  ◌∷◌, ◌++◌, Text, codes, contains, starts_with, length, take, drop, leb, ltb, max, ◌==◌,
  if◌then◌else◌, is_empty,
}
use mathlib.Core.List.{reverse}
use sarvam.Agents.Unicode.{Unicode}

abbrev pub tool_verified_marker : Text
tool_verified_marker = codes "[This reply was verified via search_company_knowledge.]"

abbrev pub leak_marker_1 : Text
leak_marker_1 = codes "IDENTITY & SCOPE"

abbrev pub leak_marker_2 : Text
leak_marker_2 = codes "LANGUAGE PRESERVATION (non-negotiable)"

abbrev pub leak_refusal : Text
leak_refusal =
    codes "I can't share my internal instructions, but I'm happy to help with your question."

unfoldable pub is_leak : Text → Bool
is_leak t = contains t leak_marker_1 || contains t leak_marker_2

-- What follows the first `>`, if there is one.
unfoldable pub after_gt : Text → Option Text
after_gt [] = none
after_gt (c ∷ t) = if c == b'>' then some t else after_gt t

-- A match of `<[^>]+>` at the start of a text, as what follows it.
unfoldable pub html_tag : Text → Option Text
unfolding after_gt
html_tag [] = none
html_tag (c ∷ []) = none
html_tag (c ∷ d ∷ t) = if c == b'<' && not (d == b'>') then after_gt t else none

-- `re.sub(pattern, "", text)` for a pattern that is never empty: on fuel, which is the length of the
-- text, since a match may reach far ahead.
unfoldable pub sub_on : (Text → Option Text) → ℕ → Text → Text
sub_on pattern zero t = t
sub_on pattern (suc f) [] = []
sub_on pattern (suc f) (c ∷ t) = elim (pattern (c ∷ t)) [
  | none ↦ c ∷ sub_on pattern f t
  | some r ↦ sub_on pattern f r
]

unfoldable pub sub : (Text → Option Text) → Text → Text
sub pattern t = sub_on pattern (length t) t

-- What follows a literal text.
unfoldable pub literal : Text → Text → Option Text
literal [] t = some t
literal (p ∷ ps) [] = none
literal (p ∷ ps) (c ∷ t) = if p == c then literal ps t else none

unfoldable pub marker : Text → Option Text
unfolding literal
marker = literal tool_verified_marker

-- `re.sub(r"\n{2,}", "\n", text)`
unfoldable pub collapse_newlines : Text → Text
collapse_newlines [] = []
collapse_newlines (c ∷ []) = c ∷ []
collapse_newlines (c ∷ d ∷ t) =
    let rest = collapse_newlines (d ∷ t) in if (c == 10) && (d == 10) then rest else c ∷ rest

-- The suffix that begins with the last `<`.
unfoldable pub last_open : Text → Option Text
last_open [] = none
last_open (c ∷ t) = elim (last_open t) [
  | some s ↦ some s
  | none ↦ if c == b'<' then some (c ∷ t) else none
]

lower_ascii : ℕ → ℕ
lower_ascii c = if leb b'A' c && leb c b'Z' then c + 32 else c

-- What follows a literal text in any case.
unfoldable pub literal_nocase : Text → Text → Option Text
unfolding lower_ascii
literal_nocase [] t = some t
literal_nocase (p ∷ ps) [] = none
literal_nocase (p ∷ ps) (c ∷ t) = if p == lower_ascii c then literal_nocase ps t else none

infixl 5 ◌>>=◌
abbrev ◌>>=◌ : Option Text → (Text → Option Text) → Option Text
none >>= f = none
some t >>= f = f t

module _ (u : Unicode) where
  unfoldable pub skip_spaces : Text → Text
  skip_spaces [] = []
  skip_spaces (c ∷ t) = if u.is_space c then skip_spaces t else c ∷ t

  -- `text.strip()`
  unfoldable pub strip : Text → Text
  unfolding skip_spaces
  strip t = reverse (skip_spaces (reverse (skip_spaces t)))

  -- `\b` behind a word.
  unfoldable pub word_end : Text → Option Text
  word_end [] = some []
  word_end (c ∷ t) = if u.is_word c then none else some (c ∷ t)

  -- `<\s*/\s*script\s*>`
  unfoldable pub close_script : Text → Option Text
  close_script t = do
    a ← literal (codes "<") t
    b ← literal (codes "/") (skip_spaces a)
    c ← literal_nocase (codes "script") (skip_spaces b)
    literal (codes ">") (skip_spaces c)

  -- What follows the first closing tag.
  unfoldable pub find_close : Text → Option Text
  find_close [] = none
  find_close (c ∷ t) =
      let rest = find_close t in elim (close_script (c ∷ t)) [ some r ↦ some r | none ↦ rest ]

  -- `<\s*script\b.*?>.*?<\s*/\s*script\s*>`
  unfoldable pub script_tag : Text → Option Text
  script_tag t = do
    a ← literal (codes "<") t
    b ← literal_nocase (codes "script") (skip_spaces a)
    c ← word_end b
    d ← after_gt c
    find_close d

  -- What both entry points take out first.
  unfoldable pub clean : Text → Text
  clean t = sub marker (sub html_tag (sub script_tag t))

  unfoldable pub sanitize_llm_output : Text → Text
  sanitize_llm_output t = if is_leak t then leak_refusal else strip (collapse_newlines (clean t))

  unfoldable pub hold_back : Text → ℕ
  hold_back cleaned =
      let fixed =
        max (length tool_verified_marker - 1)
          (max (length leak_marker_1) (length leak_marker_2) - 1) in
      elim (last_open cleaned) [
        | none ↦ fixed
        | some s ↦ elim (after_gt s) [ none ↦ max fixed (length s) | some r ↦ fixed ]
      ]

  -- The three parts are what may be sent, what is kept back, and whether the prompt leaked.
  unfoldable pub stream_safe_sanitize : Text → Text × Text × Bool
  stream_safe_sanitize buffered =
      let cleaned = clean buffered in
      let hold = hold_back cleaned in
      if is_leak cleaned
      then (leak_refusal, [], true)
      else if leb (length cleaned) hold
      then ([], cleaned, false)
      else (take (length cleaned - hold) cleaned, drop (length cleaned - hold) cleaned, false)

unfoldable pub strip_tool_verified_marker : Text → Text
strip_tool_verified_marker = sub marker

unfoldable pub marker_safe_split : Text → Text × Text
marker_safe_split buffered =
    let cleaned = sub marker buffered in
    let hold = length tool_verified_marker - 1 in
    if leb (length cleaned) hold
    then ([], cleaned)
    else (take (length cleaned - hold) cleaned, drop (length cleaned - hold) cleaned)
