-- ===== src/Security/OutputValidation/Reply.antt =====
-- What holds of the reply that `sanitize_llm_output` lets through.
use sarvam.Prelude.{
  ℕ, zero, suc, ◌≡◌, refl, true, false, ◌&&◌, none, some, [], ◌∷◌, ◌++◌, Text, length, ◌==◌, arith,
  Bool-cases, Option-cases, inl, inr, ap, All, append-nil, any,
}
use mathlib.Core.List.{reverse, reverse-cons, reverse-reverse}
use sarvam.Agents.Unicode.{Unicode}
use sarvam.Security.OutputValidation.{
  after_gt, html_tag, sub_on, sub, literal, marker, tool_verified_marker, collapse_newlines, strip,
  skip_spaces, clean, script_tag, sanitize_llm_output, is_leak, leak_refusal,
}
use sarvam.Security.OutputValidation.Tags.{
  TagFree, Thins, nil, kept, dropped, Thins-refl, TagFree-Thins, TagFree-sub_on,
}

abbrev NotGt : ℕ → Type 0
NotGt c = (c == b'>') ≡ false

Thins-literal : (p t r s : Text) → All NotGt p → literal p t ≡ some r → Thins r s → Thins t s
unfolding literal
Thins-literal [] t r s a h k = let e : t ≡ r = cc in rw e k
Thins-literal (p ∷ ps) [] r s a h k = cc
Thins-literal (p ∷ ps) (c ∷ t) r s a h k =
    dropped c (ground (arith, a.0)) (Thins-literal ps t r s a.1 (ground arith) k)

none_gt : (t : Text) → any (λ c. c == b'>') t ≡ false → All NotGt t
none_gt [] h = tt
none_gt (c ∷ t) h = (ground arith, none_gt t (ground arith))

marker-NotGt : All NotGt tool_verified_marker
marker-NotGt = none_gt tool_verified_marker refl

marker-literal : (t r : Text) → marker t ≡ some r → literal tool_verified_marker t ≡ some r
unfolding marker
marker-literal t r e = e

unkept :
    (f c : ℕ) (t : Text)
    → marker (c ∷ t) ≡ none
    → sub_on marker (suc f) (c ∷ t) ≡ c ∷ sub_on marker f t
unfolding sub_on
unkept f c t e = rw (e, sub_on)

removed :
    (f c : ℕ) (t r : Text)
    → marker (c ∷ t) ≡ some r
    → sub_on marker (suc f) (c ∷ t) ≡ sub_on marker f r
unfolding sub_on
removed f c t r e = rw (e, sub_on)

Thins-sub_on : (f : ℕ) (t : Text) → Thins t (sub_on marker f t)
Thins-sub_on zero t = unfold sub_on in Thins-refl t
Thins-sub_on (suc f) [] = unfold sub_on in nil
Thins-sub_on (suc f) (c ∷ t) = elim (Option-cases (marker (c ∷ t))) [
  | inl e ↦ rw (unkept f c t e) (kept c (Thins-sub_on f t))
  | inr (r, e) ↦ rw (removed f c t r e) (
      Thins-literal tool_verified_marker (c ∷ t) r _ marker-NotGt (marker-literal (c ∷ t) r e)
        (Thins-sub_on f r))
]

Thins-collapse : (t : Text) → Thins t (collapse_newlines t)
unfolding collapse_newlines
Thins-collapse [] = nil
Thins-collapse (c ∷ []) = kept c nil
Thins-collapse (c ∷ d ∷ t) = elim (Bool-cases ((c == 10) && (d == 10))) [
  | inl e ↦ rw e (dropped c (ground arith) (Thins-collapse (d ∷ t)))
  | inr e ↦ rw e (kept c (Thins-collapse (d ∷ t)))
]

Thins-append : {a b c d : Text} → Thins a b → Thins c d → Thins (a ++ c) (b ++ d)
Thins-append nil k = k
Thins-append (kept x h) k = kept x (Thins-append h k)
Thins-append (dropped x e h) k = dropped x e (Thins-append h k)

Thins-reverse : {a b : Text} → Thins a b → Thins (reverse a) (reverse b)
Thins-reverse nil = nil
Thins-reverse (kept x h) =
    rw (reverse-cons, reverse-cons) (Thins-append (Thins-reverse h) (kept x nil))
Thins-reverse (dropped x {t} {s} e h) =
    rw (reverse-cons)
      (rw (← append-nil (reverse s)) (Thins-append (Thins-reverse h) (dropped x e nil)))

module _ (u : Unicode) (gt_visible : u.is_space b'>' ≡ false) where
  space_NotGt : (c : ℕ) → u.is_space c ≡ true → NotGt c
  space_NotGt c h = elim (Bool-cases (c == b'>')) [
    | inl e ↦ cc (h, gt_visible, ap u.is_space (eq_of e))
    | inr e ↦ e
  ]
    where
      eq_of : (c == b'>') ≡ true → c ≡ b'>'
      eq_of e = ground arith

  Thins-skip_spaces : (t : Text) → Thins t (skip_spaces u t)
  unfolding skip_spaces
  Thins-skip_spaces [] = nil
  Thins-skip_spaces (c ∷ t) = elim (Bool-cases (u.is_space c)) [
    | inl e ↦ rw e (dropped c (space_NotGt c e) (Thins-skip_spaces t))
    | inr e ↦ rw e (Thins-refl (c ∷ t))
  ]

  TagFree-strip : (t : Text) → TagFree t → TagFree (strip u t)
  unfolding strip
  TagFree-strip t h =
      TagFree-Thins
        (rw reverse-reverse at (Thins-reverse (Thins-skip_spaces (reverse (skip_spaces u t)))))
        (TagFree-Thins (Thins-skip_spaces t) h)

  pub TagFree-clean : (t : Text) → TagFree (clean u t)
  unfolding clean sub
  TagFree-clean t =
      TagFree-Thins (Thins-sub_on _ (sub html_tag (sub (script_tag u) t)))
        (TagFree-sub_on _ (sub (script_tag u) t) (omega arith))

  pub refusal-TagFree : TagFree leak_refusal
  unfolding sub_on html_tag after_gt
  refusal-TagFree = TagFree-sub_on (length leak_refusal) leak_refusal (omega arith)

  -- The reply that is let through has no HTML tag: no match of `<[^>]+>` begins anywhere in it,
  -- whatever the model wrote. (`>` must not count as white space.)
  pub sanitize_llm_output-TagFree : (t : Text) → TagFree (sanitize_llm_output u t)
  unfolding sanitize_llm_output
  sanitize_llm_output-TagFree t = elim (Bool-cases (is_leak t)) [
    | inl e ↦ rw e refusal-TagFree
    | inr e ↦ rw e (TagFree-strip _ (TagFree-Thins (Thins-collapse (clean u t)) (TagFree-clean t)))
  ]
