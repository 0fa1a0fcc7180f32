-- ===== src/Security/OutputValidation/Tags.antt =====
-- No HTML tag is left in a sanitized reply.
use sarvam.Prelude.{
  ℕ, zero, suc, ◌≤◌, ◌<◌, ◌≡◌, refl, true, false, ◌&&◌, not, none, some, [], ◌∷◌, Text, length,
  ◌==◌, arith, Bool-cases, Option-cases, inl, inr, ap, any,
}
use sarvam.Security.OutputValidation.{after_gt, html_tag, sub_on}

-- No match of `<[^>]+>` begins anywhere in the text.
pub data TagFree : Text → Type 0 where
  nil : TagFree []
  cons : (c : ℕ) {t : Text} → html_tag (c ∷ t) ≡ none → TagFree t → TagFree (c ∷ t)

-- The second text is the first one without some characters, none of them a `>`.
pub data Thins : Text → Text → Type 0 where
  nil : Thins [] []
  kept : (c : ℕ) {t s : Text} → Thins t s → Thins (c ∷ t) (c ∷ s)
  dropped : (c : ℕ) {t s : Text} → (c == b'>') ≡ false → Thins t s → Thins (c ∷ t) s

pub Thins-refl : (t : Text) → Thins t t
Thins-refl [] = nil
Thins-refl (c ∷ t) = kept c (Thins-refl t)

after_gt-Thins : {t s : Text} → Thins t s → after_gt t ≡ none → after_gt s ≡ none
unfolding after_gt
after_gt-Thins nil h = h
after_gt-Thins (kept c r) h = ground (arith, after_gt-Thins r)
after_gt-Thins (dropped c e r) h = after_gt-Thins r (ground arith)

-- A text with no `>` in it has no tag.
html_tag-closed : (c : ℕ) (t : Text) → after_gt t ≡ none → html_tag (c ∷ t) ≡ none
unfolding html_tag after_gt
html_tag-closed c [] h = refl
html_tag-closed c (d ∷ t) h = ground arith

not_open : (c : ℕ) (t : Text) → (c == b'<') ≡ false → html_tag (c ∷ t) ≡ none
unfolding html_tag
not_open c [] q = refl
not_open c (d ∷ t) q = rw q

-- A text with no `<` in it has no tag.
pub TagFree-plain : (t : Text) → any (λ c. c == b'<') t ≡ false → TagFree t
TagFree-plain [] h = nil
TagFree-plain (c ∷ t) h = cons c (not_open c t (ground arith)) (TagFree-plain t (ground arith))

html_tag-Thins :
    (c : ℕ) {t s : Text} → Thins t s → html_tag (c ∷ t) ≡ none → html_tag (c ∷ s) ≡ none
unfolding html_tag
html_tag-Thins c nil h = h
html_tag-Thins c (kept d {t} {s} r) h = elim (Bool-cases ((c == b'<') && not (d == b'>'))) [
  | inl e ↦ rw e (after_gt-Thins r (rw e at h))
  | inr e ↦ rw e
]
html_tag-Thins c (dropped d {t} {s} e r) h = elim (Bool-cases (c == b'<')) [
  | inl o ↦ html_tag-closed c s (after_gt-Thins r (rw (o, e) at h))
  | inr o ↦ not_open c s o
]

pub TagFree-Thins : {t s : Text} → Thins t s → TagFree t → TagFree s
TagFree-Thins nil h = h
TagFree-Thins (kept c r) (cons _ e h) = cons c (html_tag-Thins c r e) (TagFree-Thins r h)
TagFree-Thins (dropped c q r) (cons _ e h) = TagFree-Thins r h

length-after_gt : (t : Text) (r : Text) → after_gt t ≡ some r → length r < length t
unfolding after_gt
length-after_gt [] r h = cc
length-after_gt (c ∷ t) r h = ground (arith, length-after_gt t r)

length-html_tag : (t : Text) (r : Text) → html_tag t ≡ some r → length r < length t
unfolding html_tag
length-html_tag [] r h = cc
length-html_tag (c ∷ []) r h = cc
length-html_tag (c ∷ d ∷ t) r h = ground (arith, length-after_gt t r)

-- Where there is no `>` nothing is taken out.
sub_on-closed : (f : ℕ) (t : Text) → after_gt t ≡ none → sub_on html_tag f t ≡ t
unfolding sub_on
sub_on-closed zero t h = refl
sub_on-closed (suc f) [] h = refl
sub_on-closed (suc f) (c ∷ t) h =
    let e : after_gt t ≡ none = closed_tail h in
    rw (html_tag-closed c t e, sub_on) (ap (λ x. c ∷ x) (sub_on-closed f t e))
  where
    closed_tail : after_gt (c ∷ t) ≡ none → after_gt t ≡ none
    closed_tail k = unfold after_gt in ground arith

kept_char :
    (f c : ℕ) (t : Text)
    → html_tag (c ∷ t) ≡ none
    → sub_on html_tag (suc f) (c ∷ t) ≡ c ∷ sub_on html_tag f t
unfolding sub_on
kept_char f c t e = rw (e, sub_on)

skipped_tag :
    (f c : ℕ) (t r : Text)
    → html_tag (c ∷ t) ≡ some r
    → sub_on html_tag (suc f) (c ∷ t) ≡ sub_on html_tag f r
unfolding sub_on
skipped_tag f c t r e = rw (e, sub_on)

gt_kept :
    (f d : ℕ) (t : Text)
    → (d == b'>') ≡ true
    → sub_on html_tag (suc f) (d ∷ t) ≡ d ∷ sub_on html_tag f t
gt_kept f d t e = kept_char f d t (not_open d t (ground arith))

gt_next : (c d : ℕ) (t : Text) → (d == b'>') ≡ true → html_tag (c ∷ d ∷ t) ≡ none
unfolding html_tag
gt_next c d t e = ground arith

none_behind :
    (c d : ℕ) (t : Text)
    → (c == b'<') ≡ true
    → (d == b'>') ≡ false
    → html_tag (c ∷ d ∷ t) ≡ none
    → after_gt (d ∷ t) ≡ none
unfolding html_tag after_gt
none_behind c d t o e h = ground arith

html_tag-sub_on :
    (f : ℕ) (c : ℕ) (t : Text) → html_tag (c ∷ t) ≡ none → html_tag (c ∷ sub_on html_tag f t) ≡ none
html_tag-sub_on zero c t h = unfold sub_on in h
html_tag-sub_on (suc f) c [] h = unfold sub_on in h
html_tag-sub_on (suc f) c (d ∷ t) h = elim (Bool-cases (d == b'>')) [
  | inl e ↦ rw (gt_kept f d t e) (gt_next c d (sub_on html_tag f t) e)
  | inr e ↦ elim (Bool-cases (c == b'<')) [
    | inl o ↦ rw (sub_on-closed (suc f) (d ∷ t) (none_behind c d t o e h)) h
    | inr o ↦ not_open c _ o
  ]
]

pub TagFree-sub_on : (f : ℕ) (t : Text) → length t ≤ f → TagFree (sub_on html_tag f t)
TagFree-sub_on zero [] h = unfold sub_on in nil
TagFree-sub_on zero (c ∷ t) h = absurd (omega arith)
TagFree-sub_on (suc f) [] h = unfold sub_on in nil
TagFree-sub_on (suc f) (c ∷ t) h = elim (Option-cases (html_tag (c ∷ t))) [
  | inl e ↦
      rw (kept_char f c t e) (cons c (html_tag-sub_on f c t e) (TagFree-sub_on f t (omega arith)))
  | inr (r, e) ↦
      rw (skipped_tag f c t r e) (TagFree-sub_on f r (omega (arith, length-html_tag (c ∷ t) r e)))
]
