-- ===== src/Speech/Chunker/Ink.antt =====
-- speech/chunker.py: what the clauses of a sentence keep of its text.
use mathlib.Core.List.{reverse, reverse-cons, reverse-reverse}
use sarvam.Prelude.{
  ℕ, zero, suc, ◌≤◌, ◌<◌, ◌≡◌, refl, sym, Bool, true, false, ◌&&◌, not, some, List, [], ◌∷◌, ◌++◌,
  map, Text, length, keep, keep-append, append_assoc, append-nil, ap, ◌∙◌, arith, Bool-cases,
  Option-cases, inl, inr, ◌==◌, leb,
}
use sarvam.Agents.Unicode.{Unicode}
use sarvam.Agents.SelfCheck.{count_words}
use sarvam.Security.OutputValidation.{strip, skip_spaces}
use sarvam.Speech.Chunker.{
  Token, char, run, Masked, unmask, mask, clause_break, pieces_on, split_into_clauses,
  finalize_sentence, drop_spaces, begins_conjunction, is_blank, onto_first,
  max_words_before_clause_fallback,
}
use sarvam.Speech.Chunker.Masks.{unmask-mask, unmask-append}

keep-reverse {ℓ} :
    {A : Type ℓ} (p : A → Bool) (xs : List A) → keep p (reverse xs) ≡ reverse (keep p xs)
keep-reverse p [] = refl
keep-reverse p (x ∷ xs) = elim (Bool-cases (p x)) [
  | inl e ↦ rw (reverse-cons, keep-append, keep-reverse p xs, e, reverse-cons)
  | inr e ↦ rw (reverse-cons, keep-append, keep-reverse p xs, e, append-nil)
]

module _ (u : Unicode) where
  -- A character that a chunk must not lose.
  abbrev pub is_ink : ℕ → Bool
  is_ink c = not (u.is_space c) && not (c == b',')

  unfoldable pub ink : Text → Text
  ink t = keep is_ink t

  -- The ink of some texts, one after the other.
  unfoldable pub ink_all : List Text → Text
  ink_all [] = []
  ink_all (t ∷ ts) = ink t ++ ink_all ts

  pub ink-append : (s t : Text) → ink (s ++ t) ≡ ink s ++ ink t
  unfolding ink
  ink-append s t = keep-append is_ink s t

  pub ink_all-append : (xs ys : List Text) → ink_all (xs ++ ys) ≡ ink_all xs ++ ink_all ys
  unfolding ink_all
  ink_all-append [] ys = refl
  ink_all-append (t ∷ xs) ys = rw (ink_all-append xs ys, append_assoc)

  ink-skip_spaces : (t : Text) → ink (skip_spaces u t) ≡ ink t
  unfolding ink skip_spaces
  ink-skip_spaces [] = refl
  ink-skip_spaces (c ∷ t) = ground (arith, ink-skip_spaces t)

  ink-reverse : (t : Text) → ink (reverse t) ≡ reverse (ink t)
  unfolding ink
  ink-reverse t = keep-reverse is_ink t

  pub ink-strip : (t : Text) → ink (strip u t) ≡ ink t
  unfolding strip
  ink-strip t = rw (ink-reverse, ink-skip_spaces, ink-reverse, ink-skip_spaces, reverse-reverse)

  ink-drop_spaces : (m : Masked) → ink (unmask (drop_spaces u m)) ≡ ink (unmask m)
  unfolding ink
  ink-drop_spaces [] = refl
  ink-drop_spaces (run r ∷ m) = refl
  ink-drop_spaces (char c ∷ m) = ground (arith, ink-drop_spaces m)

  length-drop_spaces : (m : Masked) → length (drop_spaces u m) ≤ length m
  length-drop_spaces [] = omega arith
  length-drop_spaces (run r ∷ m) = omega arith
  length-drop_spaces (char c ∷ m) = ground (arith, length-drop_spaces m)

  ink-blank : (m : Masked) → is_blank u m ≡ true → ink (unmask m) ≡ []
  unfolding ink
  ink-blank [] h = refl
  ink-blank (run r ∷ m) h = cc
  ink-blank (char c ∷ m) h = ground (arith, ink-blank m)

  behind_break :
      (c : ℕ) (m : Masked) → is_ink c ≡ false → ink (unmask (drop_spaces u m)) ≡ ink (c ∷ unmask m)
  unfolding ink
  behind_break c m h = rw h (ink-drop_spaces m)

  -- Behind a clause break is all the ink there was before it.
  clause_break-ink :
      (m r : Masked)
      → clause_break u m ≡ some r
      → (ink (unmask r) ≡ ink (unmask m)) × (length r < length m)
  unfolding clause_break
  clause_break-ink [] r h = cc
  clause_break-ink (run x ∷ m) r h = cc
  clause_break-ink (char c ∷ m) r h =
      let shorter = length-drop_spaces m in
      elim (Bool-cases (c == b',')) [
        | inl comma ↦
            let same : drop_spaces u m ≡ r = cc (rw comma at h) in
            rw (← same) (behind_break c m (ground arith), omega arith)
        | inr plain ↦ elim (Bool-cases (u.is_space c && begins_conjunction u (drop_spaces u m))) [
          | inl joined ↦
              let same : drop_spaces u m ≡ r = cc (rw (plain, joined) at h) in
              rw (← same) (behind_break c m (ground arith), omega arith)
          | inr other_text ↦ absurd (cc (rw (plain, other_text) at h))
        ]
      ]

  -- The ink of pieces that are still masked.
  pieces_ink : List Masked → Text
  pieces_ink [] = []
  pieces_ink (p ∷ ps) = ink (unmask p) ++ pieces_ink ps

  ink-unmask_cons :
      (t : Token) (m : Masked) → ink (unmask (t ∷ m)) ≡ ink (unmask (t ∷ [])) ++ ink (unmask m)
  ink-unmask_cons t m =
      ap ink (unmask-append u (t ∷ []) m) ∙ ink-append (unmask (t ∷ [])) (unmask m)

  onto_first-ink :
      (t : Token) (ps : List Masked)
      → pieces_ink (onto_first u t ps) ≡ ink (unmask (t ∷ [])) ++ pieces_ink ps
  unfolding pieces_ink
  onto_first-ink t [] = refl
  onto_first-ink t (p ∷ ps) = rw (ink-unmask_cons t p, append_assoc)

  pieces_on-ink :
      (f : ℕ) (m : Masked) → length m ≤ f → pieces_ink (pieces_on u f m) ≡ ink (unmask m)
  unfolding pieces_on pieces_ink ink
  pieces_on-ink zero [] h = refl
  pieces_on-ink zero (t ∷ m) h = absurd (omega arith)
  pieces_on-ink (suc f) [] h = refl
  pieces_on-ink (suc f) (t ∷ m) h = elim (Option-cases (clause_break u (t ∷ m))) [
    | inl e ↦
        rw (e, pieces_on)
          (onto_first-ink t (pieces_on u f m)
            ∙ ap (λ x. ink (unmask (t ∷ [])) ++ x) (pieces_on-ink f m (omega arith))
            ∙ sym (ink-unmask_cons t m))
    | inr (r, e) ↦
        let (same, shorter) = clause_break-ink (t ∷ m) r e in
        rw (e, pieces_on) (pieces_on-ink f r (omega arith) ∙ same)
  ]

  kept-ink :
      (ps : List Masked)
      → ink_all (map (λ p. strip u (unmask p)) (keep (λ p. not (is_blank u p)) ps)) ≡ pieces_ink ps
  unfolding ink_all pieces_ink
  kept-ink [] = refl
  kept-ink (p ∷ ps) = elim (Bool-cases (is_blank u p)) [
    | inl blank ↦ rw (blank, ink-blank p blank) (kept-ink ps)
    | inr filled ↦ rw (filled, ink-strip (unmask p), kept-ink ps)
  ]

  split_into_clauses-ink : (t : Text) → ink_all (split_into_clauses u t) ≡ ink t
  unfolding split_into_clauses
  split_into_clauses-ink t =
      kept-ink _
      ∙ pieces_on-ink (length (mask u t)) (mask u t) (omega arith)
      ∙ ap ink (unmask-mask u t)

  pub finalize_sentence-ink : (t : Text) → ink_all (finalize_sentence u t) ≡ ink t
  unfolding finalize_sentence ink_all
  finalize_sentence-ink t =
      elim (Bool-cases (leb (count_words u false t) (max_words_before_clause_fallback u))) [
        | inl short ↦ rw (short, append-nil) (ink-strip t)
        | inr long ↦ rw long (split_into_clauses-ink t)
      ]
