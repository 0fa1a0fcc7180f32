-- ===== src/Speech/Chunker/Conserved.antt =====
-- Whatever the deltas, the chunks hold all of the text but white space and commas, in its order.
use sarvam.Prelude.{
  ℕ, zero, suc, ◌≡◌, refl, sym, Bool, true, false, ◌&&◌, not, List, [], ◌∷◌, ◌++◌, Text, length,
  take, drop, is_empty, append_assoc, append-nil, ap, ◌∙◌, Bool-cases, Option-cases, inl, inr,
  if◌then◌else◌, ltb,
}
use sarvam.Agents.Unicode.{Unicode}
use sarvam.Security.OutputValidation.{strip}
use sarvam.Speech.Chunker.{
  unmask, mask, split_sentence, finalize_sentence, words, join, sentence_chunks, Chunking, drain,
  feed, chunk_deltas, flush, start, chunk_stream, grow, emit, first_chunk_words,
}
use sarvam.Speech.Chunker.Masks.{unmask-mask, unmask-append, split_sentence-append}
use sarvam.Speech.Chunker.Ink.{
  ink, ink_all, ink-append, ink_all-append, ink-strip, finalize_sentence-ink,
}

module _ (u : Unicode) where
  grow-ink : (c : ℕ) (ws : List Text) → ink_all u (grow u c ws) ≡ ink u (c ∷ []) ++ ink_all u ws
  unfolding ink_all
  grow-ink c [] = refl
  grow-ink c (w ∷ ws) = rw (ink-append u (c ∷ []) w, append_assoc)

  ink_one : (c : ℕ) → ink u (c ∷ []) ++ [] ≡ ink u (c ∷ [])
  ink_one c = append-nil (ink u (c ∷ []))

  words-one : (c : ℕ) → u.is_space c ≡ false → words u (c ∷ []) ≡ (c ∷ []) ∷ []
  unfolding words
  words-one c e = rw e refl

  words-gap :
      (c d : ℕ) (t : Text)
      → u.is_space c ≡ false
      → words u (c ∷ d ∷ t)
        ≡ (if u.is_space d then (c ∷ []) ∷ words u (d ∷ t) else grow u c (words u (d ∷ t)))
  unfolding words
  words-gap c d t e = rw e refl

  word-ink :
      (b : Bool) (c : ℕ) (ws : List Text)
      → ink_all u (if b then (c ∷ []) ∷ ws else grow u c ws) ≡ ink u (c ∷ []) ++ ink_all u ws
  unfolding ink_all
  word-ink true c ws = refl
  word-ink false c ws = grow-ink c ws

  blank-ink : (c : ℕ) (t : Text) → u.is_space c ≡ true → ink u (c ∷ t) ≡ ink u t
  unfolding ink
  blank-ink c t e = rw e refl

  words-blank : (c : ℕ) (t : Text) → u.is_space c ≡ true → words u (c ∷ t) ≡ words u t
  unfolding words
  words-blank c [] e = rw e refl
  words-blank c (d ∷ t) e = rw e refl

  words-nil : ink_all u (words u []) ≡ ink u []
  unfolding words ink_all ink
  words-nil = refl

  words-ink : (t : Text) → ink_all u (words u t) ≡ ink u t
  unfolding ink_all
  words-ink [] = words-nil
  words-ink (c ∷ []) = elim (Bool-cases (u.is_space c)) [
    | inl e ↦ ap (ink_all u) (words-blank c [] e) ∙ words-nil ∙ sym (blank-ink c [] e)
    | inr e ↦ ap (ink_all u) (words-one c e) ∙ ink_one c
  ]
  words-ink (c ∷ d ∷ t) = elim (Bool-cases (u.is_space c)) [
    | inl e ↦
        ap (ink_all u) (words-blank c (d ∷ t) e) ∙ words-ink (d ∷ t) ∙ sym (blank-ink c (d ∷ t) e)
    | inr e ↦
        ap (ink_all u) (words-gap c d t e)
        ∙ word-ink (u.is_space d) c (words u (d ∷ t))
        ∙ ap (λ x. ink u (c ∷ []) ++ x) (words-ink (d ∷ t))
        ∙ sym (ink-append u (c ∷ []) (d ∷ t))
  ]

  take-drop-ink :
      (n : ℕ) (ws : List Text) → ink_all u (take n ws) ++ ink_all u (drop n ws) ≡ ink_all u ws
  unfolding ink_all
  take-drop-ink zero ws = refl
  take-drop-ink (suc n) [] = refl
  take-drop-ink (suc n) (w ∷ ws) =
      append_assoc (ink u w) _ _ ∙ ap (λ x. ink u w ++ x) (take-drop-ink n ws)

  module _ (space : u.is_space b' ' ≡ true) where
    gap-ink : (t : Text) → ink u (b' ' ∷ t) ≡ ink u t
    unfolding ink
    gap-ink t = rw space refl

    join-ink : (ws : List Text) → ink u (join u ws) ≡ ink_all u ws
    unfolding ink_all ink
    join-ink [] = refl
    join-ink (w ∷ []) = rw append-nil refl
    join-ink (w ∷ v ∷ ws) =
        ink-append u w (b' ' ∷ join u (v ∷ ws))
        ∙ ap (λ x. ink u w ++ x) (gap-ink (join u (v ∷ ws)) ∙ join-ink (v ∷ ws))

    sentence_chunks-ink : (b : Bool) (t : Text) → ink_all u (sentence_chunks u b t) ≡ ink u t
    unfolding sentence_chunks ink_all
    sentence_chunks-ink b t =
        elim (Bool-cases (not b && ltb (first_chunk_words u) (length (words u t)))) [
          | inr whole ↦ rw whole (finalize_sentence-ink u t)
          | inl lead ↦
              let ws = words u t in
              rw lead (
                ap (λ x. x ++ ink_all u (finalize_sentence u (join u (drop 10 ws))))
                  (ink-strip u (join u (take 10 ws)) ∙ join-ink (take 10 ws))
                ∙ ap (λ x. ink_all u (take 10 ws) ++ x)
                    (finalize_sentence-ink u (join u (drop 10 ws)) ∙ join-ink (drop 10 ws))
                ∙ take-drop-ink 10 ws
                ∙ words-ink t)
        ]

    -- The ink that has come out, and what is still in the buffer.
    held : List Text × Chunking u → Text
    held r = ink_all u r.0 ++ ink u r.1.buffer

    emit-held :
        (cs : List Text) (r : List Text × Chunking u) → held (emit u cs r) ≡ ink_all u cs ++ held r
    unfolding held
    emit-held cs r = rw (ink_all-append u, append_assoc)

    drain-held : (f : ℕ) (s : Chunking u) → held (drain u f s) ≡ ink u s.buffer
    unfolding drain held ink_all
    drain-held zero s = refl
    drain-held (suc f) s = elim (Option-cases (split_sentence u (mask u s.buffer))) [
      | inl e ↦ rw (e, drain) refl
      | inr (p, e) ↦
          let (whole, shorter) = split_sentence-append u (mask u s.buffer) p e in
          rw (e, drain)
            (emit-held (sentence_chunks u s.first_chunk_emitted (unmask p.0))
                (drain u f (record { buffer = unmask p.1; first_chunk_emitted = true }))
              ∙ ap
                  (λ x.
                    x
                    ++ held
                        (drain u f (record { buffer = unmask p.1; first_chunk_emitted = true })))
                  (sentence_chunks-ink s.first_chunk_emitted (unmask p.0))
              ∙ ap (λ x. ink u (unmask p.0) ++ x) (drain-held f _)
              ∙ sym (ink-append u (unmask p.0) (unmask p.1))
              ∙ ap (ink u)
                  (sym (unmask-append u p.0 p.1) ∙ ap unmask whole ∙ unmask-mask u s.buffer))
    ]

    feed-held : (d : Text) (s : Chunking u) → held (feed u d s) ≡ ink u s.buffer ++ ink u d
    unfolding feed
    feed-held d s = drain-held (length (s.buffer ++ d)) _ ∙ ink-append u s.buffer d

    chunk_deltas-held :
        (ds : List Text) (s : Chunking u)
        → held (chunk_deltas u ds s) ≡ ink u s.buffer ++ ink_all u ds
    unfolding chunk_deltas ink_all held
    chunk_deltas-held [] s = sym (append-nil (ink u s.buffer))
    chunk_deltas-held (d ∷ ds) s =
        let fed = feed u d s in
        emit-held fed.0 (chunk_deltas u ds fed.1)
        ∙ ap (λ x. ink_all u fed.0 ++ x) (chunk_deltas-held ds fed.1)
        ∙ sym (append_assoc (ink_all u fed.0) _ _)
        ∙ ap (λ x. x ++ ink_all u ds) (feed-held d s)
        ∙ append_assoc (ink u s.buffer) _ _

    empty-ink : (t : Text) → is_empty t ≡ true → ink u t ≡ []
    unfolding ink
    empty-ink [] h = refl
    empty-ink (c ∷ t) h = cc

    flush-ink : (s : Chunking u) → ink_all u (flush u s) ≡ ink u s.buffer
    unfolding flush ink_all
    flush-ink s = elim (Bool-cases (is_empty (strip u s.buffer))) [
      | inr left ↦ rw left (finalize_sentence-ink u (strip u s.buffer) ∙ ink-strip u s.buffer)
      | inl nothing ↦ rw nothing (sym (empty-ink (strip u s.buffer) nothing) ∙ ink-strip u s.buffer)
    ]

    -- Where the blank is white space: whatever the deltas of a stream, its chunks, one after the
    -- other, hold the deltas' characters in their order, but for white space and commas.
    pub chunk_stream-ink :
        (deltas : List Text) → ink_all u (chunk_stream u deltas) ≡ ink_all u deltas
    unfolding chunk_stream held ink_all ink
    chunk_stream-ink deltas =
        let done = chunk_deltas u deltas (start u) in
        ink_all-append u done.0 (flush u done.1)
        ∙ ap (λ x. ink_all u done.0 ++ x) (flush-ink done.1)
        ∙ chunk_deltas-held deltas (start u)
