-- ===== src/Speech/Chunker.antt =====
-- speech/chunker.py: cutting a streamed answer into chunks for the speech synthesis.
--
-- A masked text is a list of characters and number runs. The source writes a run as its index between
-- NUL characters and keeps the runs beside the text, which is the same for texts without NUL.
pub mod Masks
pub mod Ink
pub mod Conserved
mod Examples
use sarvam.Prelude.{
  ℕ, zero, suc, ◌+◌, Bool, true, false, ◌&&◌, ◌||◌, not, Option, none, some, List, [], ◌∷◌, ◌++◌,
  map, String, Text, codes, ltb, leb, ◌==◌, if◌then◌else◌, any, length, take, drop, is_empty, keep,
}
use sarvam.Agents.Unicode.{Unicode}
use sarvam.Agents.SelfCheck.{count_words}
use sarvam.Security.OutputValidation.{strip, literal_nocase}

pub data Token : Type 0 where
  char : ℕ → Token
  run : Text → Token

abbrev pub Masked : Type 0
Masked = List Token

abbrev pub unmask : Masked → Text
unmask [] = []
unmask (char c ∷ ts) = c ∷ unmask ts
unmask (run r ∷ ts) = r ++ unmask ts

-- The longest prefix of characters that pass the test, and what is behind it.
abbrev pub span : (ℕ → Bool) → Text → Text × Text
span p [] = ([], [])
span p (c ∷ t) = let rest = span p t in if p c then (c ∷ rest.0, rest.1) else ([], c ∷ t)

-- `[₹$€£]`
abbrev pub is_currency : ℕ → Bool
is_currency c = (c == 0x20B9) || ((c == b'$') || ((c == 0x20AC) || (c == 0xA3)))

-- Full stop, exclamation and question mark, the two dandas, and the Arabic question mark.
abbrev pub is_sentence_end : ℕ → Bool
is_sentence_end c =
    (c == b'.')
    || ((c == b'!') || ((c == b'?') || ((c == 0x0964) || ((c == 0x0965) || (c == 0x061F)))))

module _ (u : Unicode) where
  -- `(?:\.\d+)?`
  unfoldable pub fraction : Text → Text × Text
  fraction (c ∷ d ∷ t) =
      let digits = span u.is_digit t in
      if (c == b'.') && u.is_digit d then (c ∷ d ∷ digits.0, digits.1) else ([], c ∷ d ∷ t)
  fraction t = ([], t)

  -- `\d[\d,]*(?:\.\d+)?`, with what is behind it.
  unfoldable pub plain_number : Text → Option (Text × Text)
  unfolding fraction
  plain_number [] = none
  plain_number (c ∷ t) =
      let whole = span (λ x. u.is_digit x || (x == b',')) t in
      let part = fraction whole.1 in
      if u.is_digit c then some (c ∷ whole.0 ++ part.0, part.1) else none

  abbrev with_symbol : ℕ → Option (Text × Text) → Option (Text × Text)
  with_symbol c none = none
  with_symbol c (some (n, rest)) = some (c ∷ n, rest)

  -- `[₹$€£]?\d[\d,]*(?:\.\d+)?`
  unfoldable pub number_run : Text → Option (Text × Text)
  unfolding plain_number
  number_run [] = none
  number_run (c ∷ t) =
      if is_currency c then with_symbol c (plain_number t) else plain_number (c ∷ t)

  -- The substitution from left to right, on fuel; the text's length is enough.
  unfoldable pub mask_on : ℕ → Text → Masked
  unfolding number_run
  mask_on zero t = []
  mask_on (suc f) [] = []
  mask_on (suc f) (c ∷ t) = elim (number_run (c ∷ t)) [
    | some r ↦ run r.0 ∷ mask_on f r.1
    | none ↦ char c ∷ mask_on f t
  ]

  unfoldable pub mask : Text → Masked
  unfolding mask_on
  mask t = mask_on (length t) t

  abbrev first_with : Token → Option (Masked × Masked) → Option (Masked × Masked)
  first_with t none = none
  first_with t (some (a, b)) = some (t ∷ a, b)

  -- The search for the end of a sentence: the text up to it, and the text behind it.
  unfoldable pub split_sentence : Masked → Option (Masked × Masked)
  split_sentence [] = none
  split_sentence (run r ∷ ts) = first_with (run r) (split_sentence ts)
  split_sentence (char c ∷ ts) =
      let rest = split_sentence ts in
      if is_sentence_end c then some (char c ∷ [], ts) else first_with (char c) rest

  abbrev pub is_space_token : Token → Bool
  is_space_token (char c) = u.is_space c
  is_space_token (run r) = false

  abbrev pub drop_spaces : Masked → Masked
  drop_spaces [] = []
  drop_spaces (t ∷ ts) = if is_space_token t then drop_spaces ts else t ∷ ts

  -- The plain characters at the front of a masked text.
  abbrev front : Masked → Text
  front [] = []
  front (char c ∷ ts) = c ∷ front ts
  front (run r ∷ ts) = []

  -- `\b` behind a word.
  abbrev ends_word : Text → Bool
  ends_word [] = true
  ends_word (c ∷ t) = not (u.is_word c)

  abbrev begins_word : Text → Text → Bool
  begins_word t w = elim (literal_nocase w t) [ none ↦ false | some rest ↦ ends_word rest ]

  abbrev conjunctions : List Text
  conjunctions =
      codes "and" ∷ codes "but" ∷ codes "or" ∷ codes "so" ∷ codes "because" ∷ codes "then" ∷ []

  abbrev pub begins_conjunction : Masked → Bool
  begins_conjunction ts = any (λ w. begins_word (front ts) w) conjunctions

  -- A clause break at the front, `,\s*` or `\s+` before a conjunction: the text behind it.
  unfoldable pub clause_break : Masked → Option Masked
  clause_break [] = none
  clause_break (run r ∷ ts) = none
  clause_break (char c ∷ ts) =
      if c == b','
      then some (drop_spaces ts)
      else if u.is_space c && begins_conjunction (drop_spaces ts)
      then some (drop_spaces ts)
      else none

  abbrev pub onto_first : Token → List Masked → List Masked
  onto_first t [] = (t ∷ []) ∷ []
  onto_first t (p ∷ ps) = (t ∷ p) ∷ ps

  -- `_CLAUSE_BREAK.split`, on fuel; the number of tokens is enough.
  unfoldable pub pieces_on : ℕ → Masked → List Masked
  unfolding clause_break
  pieces_on zero ts = [] ∷ []
  pieces_on (suc f) [] = [] ∷ []
  pieces_on (suc f) (t ∷ ts) = elim (clause_break (t ∷ ts)) [
    | some rest ↦ [] ∷ pieces_on f rest
    | none ↦ onto_first t (pieces_on f ts)
  ]

  abbrev pub is_blank : Masked → Bool
  is_blank ts = not (any (λ t. not (is_space_token t)) ts)

  unfoldable pub split_into_clauses : Text → List Text
  unfolding mask pieces_on
  split_into_clauses sentence =
      let m = mask sentence in
      map (λ p. strip u (unmask p)) (keep (λ p. not (is_blank p)) (pieces_on (length m) m))

  abbrev pub max_words_before_clause_fallback : ℕ
  max_words_before_clause_fallback = 25

  unfoldable pub finalize_sentence : Text → List Text
  unfolding split_into_clauses
  finalize_sentence sentence =
      if leb (count_words u false sentence) max_words_before_clause_fallback
      then strip u sentence ∷ []
      else split_into_clauses sentence

  abbrev grow : ℕ → List Text → List Text
  grow c [] = (c ∷ []) ∷ []
  grow c (w ∷ ws) = (c ∷ w) ∷ ws

  -- `text.split()`
  unfoldable pub words : Text → List Text
  words [] = []
  words (c ∷ []) = if u.is_space c then [] else (c ∷ []) ∷ []
  words (c ∷ d ∷ t) =
      let rest = words (d ∷ t) in
      if u.is_space c then rest else if u.is_space d then (c ∷ []) ∷ rest else grow c rest

  -- `" ".join`
  abbrev pub join : List Text → Text
  join [] = []
  join (w ∷ []) = w
  join (w ∷ v ∷ ws) = w ++ (b' ' ∷ join (v ∷ ws))

  abbrev pub first_chunk_words : ℕ
  first_chunk_words = 10

  -- The chunks of a sentence; the first one of a stream has a short lead.
  unfoldable pub sentence_chunks : Bool → Text → List Text
  unfolding finalize_sentence words
  sentence_chunks first_chunk_emitted sentence =
      let ws = words sentence in
      if not first_chunk_emitted && ltb first_chunk_words (length ws)
      then strip u (join (take first_chunk_words ws))
        ∷ finalize_sentence (join (drop first_chunk_words ws))
      else finalize_sentence sentence

  -- The state of the generator.
  pub record Chunking : Type 0 where
    pub buffer : Text
    pub first_chunk_emitted : Bool

  abbrev emit : List Text → List Text × Chunking → List Text × Chunking
  emit cs (ds, s) = (cs ++ ds, s)

  -- The inner loop: the sentences that are complete. A sentence has a character, so the buffer's
  -- length is fuel enough.
  unfoldable pub drain : ℕ → Chunking → List Text × Chunking
  unfolding mask split_sentence sentence_chunks
  drain zero s = ([], s)
  drain (suc f) s = elim (split_sentence (mask s.buffer)) [
    | none ↦ ([], s)
    | some p ↦
        emit (sentence_chunks s.first_chunk_emitted (unmask p.0))
          (drain f (record { buffer = unmask p.1; first_chunk_emitted = true }))
  ]

  unfoldable pub feed : Text → Chunking → List Text × Chunking
  unfolding drain
  feed delta s = drain (length (s.buffer ++ delta)) (record s { buffer = s.buffer ++ delta })

  unfoldable pub chunk_deltas : List Text → Chunking → List Text × Chunking
  chunk_deltas [] s = ([], s)
  chunk_deltas (d ∷ ds) s = let fed = feed d s in emit fed.0 (chunk_deltas ds fed.1)

  unfoldable pub flush : Chunking → List Text
  flush s =
      let remainder = strip u s.buffer in
      if is_empty remainder then [] else finalize_sentence remainder

  abbrev pub start : Chunking
  start = record { buffer = []; first_chunk_emitted = false }

  unfoldable pub chunk_stream : List Text → List Text
  unfolding chunk_deltas flush
  chunk_stream deltas = let done = chunk_deltas deltas start in done.0 ++ flush done.1
