-- ===== src/Agents/Language/Script.antt =====
-- The disallowed scripts are found exactly.
use sarvam.Prelude.{ℕ, ◌<◌, ◌≡◌, refl, ◌⊎◌, inl, inr, none, [], ◌∷◌, Text, All, arith, Option-cases}
use sarvam.Agents.Language.{find_range, disallowed_ranges, disallowed_script_in}

-- Where no disallowed script is reported, every character of the text lies outside of the disallowed
-- ranges.
pub disallowed_script_in-none :
    (t : Text) → disallowed_script_in t ≡ none → All (λ c. find_range disallowed_ranges c ≡ none) t
unfolding disallowed_script_in
disallowed_script_in-none [] h = tt
disallowed_script_in-none (c ∷ t) h = elim (Option-cases (find_range disallowed_ranges c)) [
  | inl e ↦ (e, disallowed_script_in-none t (rw (e, disallowed_script_in) at h))
  | inr (x, e) ↦ cc (rw (e, disallowed_script_in) at h)
]

outside_disallowed :
    (c : ℕ) → (c < 0x0400) ⊎ (0x04FF < c) × (c < 0x3040) → find_range disallowed_ranges c ≡ none
unfolding find_range
outside_disallowed c h = ground arith

-- A text all of whose characters are Latin, of one of the supported Indic scripts, or any others
-- that lie below U+0400 or between U+0500 and U+303F, is never reported.
disallowed_script_in-supported :
    (t : Text)
    → All (λ c. (c < 0x0400) ⊎ (0x04FF < c) × (c < 0x3040)) t
    → disallowed_script_in t ≡ none
unfolding disallowed_script_in
disallowed_script_in-supported [] h = refl
disallowed_script_in-supported (c ∷ t) h =
    rw (outside_disallowed c h.0, disallowed_script_in) (disallowed_script_in-supported t h.1)
