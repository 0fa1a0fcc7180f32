-- ===== src/Speech/Chunker/Masks.antt =====
-- Masking the numbers of a text loses nothing.
use sarvam.Prelude.{
  ℕ, zero, suc, ◌≤◌, ◌<◌, ◌≡◌, refl, Bool, some, [], ◌∷◌, ◌++◌, Text, length, length-append,
  append_assoc, ap, ◌∙◌, arith, Bool-cases, Option-cases, inl, inr,
}
use sarvam.Agents.Unicode.{Unicode}
use sarvam.Speech.Chunker.{
  is_currency, is_sentence_end, char, run, Masked, unmask, span, fraction, plain_number, number_run,
  mask_on, mask, split_sentence,
}

span-append : (p : ℕ → Bool) (t : Text) → (span p t).0 ++ (span p t).1 ≡ t
span-append p [] = refl
span-append p (c ∷ t) = ground (arith, span-append p t)

module _ (u : Unicode) where
  fraction-append : (t : Text) → (fraction u t).0 ++ (fraction u t).1 ≡ t
  unfolding fraction
  fraction-append [] = refl
  fraction-append (c ∷ []) = refl
  fraction-append (c ∷ d ∷ t) = ground (arith, span-append u.is_digit t)

  -- A run and what is behind it are the text, and the run is not empty.
  pub record Parts (t : Text) (p : Text × Text) : Type 0 where
    pub whole : p.0 ++ p.1 ≡ t
    pub shorter : length p.1 < length t

  consed : (c : ℕ) (x r t : Text) → c ∷ x ++ r ≡ t → Parts t (c ∷ x, r)
  consed c x r t e = record { whole = e; shorter = rw (← e) (omega (arith, length-append x r)) }

  Parts-eq : (t : Text) (q p : Text × Text) → some q ≡ some p → Parts t q → Parts t p
  Parts-eq t q p e h = let same : q ≡ p = cc in rw (← same) h

  number_Parts :
      (c : ℕ) (t : Text) (q : ℕ → Bool)
      → Parts (c ∷ t) (c ∷ (span q t).0 ++ (fraction u (span q t).1).0, (fraction u (span q t).1).1)
  number_Parts c t q = consed c _ _ (c ∷ t) (
      ap (λ x. c ∷ x)
        (rw append_assoc
          (ap (λ x. (span q t).0 ++ x) (fraction-append (span q t).1) ∙ span-append q t)))

  plain-Parts : (t : Text) (p : Text × Text) → plain_number u t ≡ some p → Parts t p
  unfolding plain_number
  plain-Parts [] p e = cc
  plain-Parts (c ∷ t) p e = elim (Bool-cases (u.is_digit c)) [
    | inl digit ↦ Parts-eq (c ∷ t) _ p (rw digit at e) (number_Parts c t _)
    | inr none_of ↦ absurd (cc (rw none_of at e))
  ]

  number_run-Parts : (t : Text) (p : Text × Text) → number_run u t ≡ some p → Parts t p
  unfolding number_run
  number_run-Parts [] p e = cc
  number_run-Parts (c ∷ t) p e = elim (Bool-cases (is_currency c)) [
    | inr plain ↦ plain-Parts (c ∷ t) p (rw plain at e)
    | inl symbol ↦ elim (Option-cases (plain_number u t)) [
      | inl missing ↦ absurd (cc (rw (symbol, missing) at e))
      | inr (q, found) ↦
          Parts-eq (c ∷ t) (c ∷ q.0, q.1) p (rw (symbol, found) at e)
            (consed c q.0 q.1 (c ∷ t) (ap (λ x. c ∷ x) (plain-Parts t q found).whole))
    ]
  ]

  unmask-mask_on : (f : ℕ) (t : Text) → length t ≤ f → unmask (mask_on u f t) ≡ t
  unfolding mask_on
  unmask-mask_on zero [] h = refl
  unmask-mask_on zero (c ∷ t) h = absurd (omega arith)
  unmask-mask_on (suc f) [] h = refl
  unmask-mask_on (suc f) (c ∷ t) h = elim (Option-cases (number_run u (c ∷ t))) [
    | inl e ↦ rw (e, mask_on) (ap (λ x. c ∷ x) (unmask-mask_on f t (omega arith)))
    | inr (p, e) ↦
        let parts = number_run-Parts (c ∷ t) p e in
        rw (e, mask_on)
          (ap (λ x. p.0 ++ x) (unmask-mask_on f p.1 (omega (arith, parts.shorter))) ∙ parts.whole)
  ]

  -- Masking the number runs of a text and putting them back gives the text again.
  pub unmask-mask : (t : Text) → unmask (mask u t) ≡ t
  unfolding mask
  unmask-mask t = unmask-mask_on (length t) t (omega arith)

  pub unmask-append : (a b : Masked) → unmask (a ++ b) ≡ unmask a ++ unmask b
  unmask-append [] b = refl
  unmask-append (char c ∷ a) b = ap (λ x. c ∷ x) (unmask-append a b)
  unmask-append (run r ∷ a) b = ap (λ x. r ++ x) (unmask-append a b) ∙ rw append_assoc

  Cuts : Masked → Masked × Masked → Type 0
  Cuts m p = (p.0 ++ p.1 ≡ m) × (length p.1 < length m)

  Cuts-eq : (m : Masked) (q p : Masked × Masked) → some q ≡ some p → Cuts m q → Cuts m p
  Cuts-eq m q p e h = let same : q ≡ p = cc in rw (← same) h

  -- The sentence and what is behind it are the text.
  pub split_sentence-append :
      (m : Masked) (p : Masked × Masked)
      → split_sentence u m ≡ some p
      → (p.0 ++ p.1 ≡ m) × (length p.1 < length m)
  unfolding split_sentence Cuts
  split_sentence-append [] p e = cc
  split_sentence-append (run r ∷ m) p e = elim (Option-cases (split_sentence u m)) [
    | inl missing ↦ absurd (cc (rw missing at e))
    | inr (q, found) ↦
        let (whole, shorter) = split_sentence-append m q found in
        Cuts-eq (run r ∷ m) (run r ∷ q.0, q.1) p (rw found at e)
          (ap (λ x. run r ∷ x) whole, omega arith)
  ]
  split_sentence-append (char c ∷ m) p e = elim (Bool-cases (is_sentence_end c)) [
    | inl ends ↦ Cuts-eq (char c ∷ m) (char c ∷ [], m) p (rw ends at e) (refl, omega arith)
    | inr inside ↦ elim (Option-cases (split_sentence u m)) [
      | inl missing ↦ absurd (cc (rw (inside, missing) at e))
      | inr (q, found) ↦
          let (whole, shorter) = split_sentence-append m q found in
          Cuts-eq (char c ∷ m) (char c ∷ q.0, q.1) p (rw (inside, found) at e)
            (ap (λ x. char c ∷ x) whole, omega arith)
    ]
  ]
