-- ===== src/Agents/Language/Extract.antt =====
-- The JSON object is found whatever a model wrote around it.
use sarvam.Prelude.{
  ℕ, suc, ◌≡◌, ◌≢◌, refl, Option, none, some, [], ◌∷◌, ◌++◌, Text, All, arith, append_assoc, ap,
  ◌∙◌,
}
use sarvam.Agents.Language.Detect.{from_brace, closed_at, extract_json_object}

-- A text in which every brace that is opened is closed, and none is closed before.
pub data Balanced : Text → Type 0 where
  nil : Balanced []
  plain : {c : ℕ} {t : Text} → c ≢ b'{' → c ≢ b'}' → Balanced t → Balanced (c ∷ t)
  braced : {s t : Text} → Balanced s → Balanced t → Balanced (b'{' ∷ s ++ b'}' ∷ t)

-- The text that is found behind a text in front of it.
abbrev put_before : Text → Option Text → Option Text
put_before s none = none
put_before s (some t) = some (s ++ t)

put_before-nil : (o : Option Text) → put_before [] o ≡ o
put_before-nil none = refl
put_before-nil (some t) = refl

put_before-append :
    (s t : Text) (o : Option Text) → put_before s (put_before t o) ≡ put_before (s ++ t) o
put_before-append s t none = refl
put_before-append s t (some x) = ap some (rw append_assoc)

closed_at-plain :
    (d c : ℕ) (t : Text)
    → c ≢ b'{'
    → c ≢ b'}'
    → closed_at d (c ∷ t) ≡ put_before (c ∷ []) (closed_at d t)
unfolding closed_at
closed_at-plain d c t h k = ground arith

closed_at-open :
    (d : ℕ) (t : Text) → closed_at d (b'{' ∷ t) ≡ put_before (b'{' ∷ []) (closed_at (suc d) t)
unfolding closed_at
closed_at-open d t = ground arith

closed_at-close :
    (d : ℕ) (t : Text)
    → closed_at (suc (suc d)) (b'}' ∷ t) ≡ put_before (b'}' ∷ []) (closed_at (suc d) t)
unfolding closed_at
closed_at-close d t = ground arith

-- A balanced text is passed over at the depth at which it starts.
closed_at-Balanced :
    {s : Text} (d : ℕ) (t : Text)
    → Balanced s
    → closed_at (suc d) (s ++ t) ≡ put_before s (closed_at (suc d) t)
closed_at-Balanced d t nil = rw put_before-nil
closed_at-Balanced d t (plain {c = c} {t = s} h k b) =
    closed_at-plain (suc d) c (s ++ t) h k
    ∙ ap (put_before (c ∷ [])) (closed_at-Balanced d t b)
    ∙ put_before-append (c ∷ []) s (closed_at (suc d) t)
closed_at-Balanced d t (braced {s = s} {t = r} b c) = rw (append_assoc) (
    closed_at-open (suc d) _
    ∙ ap (put_before (b'{' ∷ [])) (
        closed_at-Balanced (suc d) (b'}' ∷ r ++ t) b
        ∙ ap (put_before s)
            (closed_at-close d (r ++ t) ∙ ap (put_before (b'}' ∷ [])) (closed_at-Balanced d t c)))
    ∙ ap (put_before (b'{' ∷ [])) (
        ap (put_before s) (put_before-append (b'}' ∷ []) r (closed_at (suc d) t))
        ∙ put_before-append s (b'}' ∷ r) (closed_at (suc d) t))
    ∙ put_before-append (b'{' ∷ []) (s ++ b'}' ∷ r) (closed_at (suc d) t))

from_brace-append :
    (pre t : Text) → All (λ c. c ≢ b'{') pre → from_brace (pre ++ b'{' ∷ t) ≡ some (b'{' ∷ t)
unfolding from_brace
from_brace-append [] t h = refl
from_brace-append (c ∷ pre) t h = ground (arith, from_brace-append pre t h.1)

closed_at-last : (t : Text) → closed_at 1 (b'}' ∷ t) ≡ some (b'}' ∷ [])
unfolding closed_at
closed_at-last t = refl

-- From an answer with an object in it, its braces balanced, and any text without an opening brace in
-- front of it and any text at all behind it, exactly the object is taken.
pub extract_json_object-braced :
    (pre inner post : Text)
    → All (λ c. c ≢ b'{') pre
    → Balanced inner
    → extract_json_object (pre ++ (b'{' ∷ (inner ++ (b'}' ∷ post))))
      ≡ some (b'{' ∷ inner ++ b'}' ∷ [])
unfolding extract_json_object
extract_json_object-braced pre inner post h b =
    rw (from_brace-append pre (inner ++ (b'}' ∷ post)) h, extract_json_object)
      (closed_at-open 0 (inner ++ (b'}' ∷ post))
        ∙ ap (put_before (b'{' ∷ [])) (closed_at-Balanced 0 (b'}' ∷ post) b)
        ∙ ap (λ o. put_before (b'{' ∷ []) (put_before inner o)) (closed_at-last post))
