-- ===== src/Speech/Chunker/Examples.antt =====
-- Tests and witnesses of the chunker.
use sarvam.Prelude.{◌≡◌, refl, Text, [], ◌∷◌, codes}
use sarvam.Agents.Unicode.{ascii}
use sarvam.Speech.Chunker.{
  mask, chunk_stream, char, run, chunk_deltas, flush, drain, feed, split_sentence, mask_on,
  number_run, plain_number, fraction, sentence_chunks, finalize_sentence, words,
}
use sarvam.Speech.Chunker.Conserved.{chunk_stream-ink}
use sarvam.Speech.Chunker.Ink.{ink_all}
use sarvam.Agents.SelfCheck.{count_words}
use sarvam.Security.OutputValidation.{strip, skip_spaces}

abbrev price : Text
price = codes "At $3.14. Yes"

masked_price : mask ascii (codes "$3.14.") ≡ run (codes "$3.14") ∷ char b'.' ∷ []
unfolding mask mask_on number_run plain_number fraction
masked_price = refl

-- The number stays in one piece, and the text behind the last full stop is flushed.
two_chunks : chunk_stream ascii (price ∷ []) ≡ codes "At $3.14." ∷ codes "Yes" ∷ []
unfolding chunk_stream chunk_deltas flush feed drain mask mask_on number_run plain_number fraction
    split_sentence sentence_chunks finalize_sentence words strip skip_spaces count_words
two_chunks = refl

-- Over two deltas the same number is cut: its full stop ends the first delta.
cut_number :
    chunk_stream ascii (codes "At 3." ∷ codes "14 now." ∷ []) ≡ codes "At 3." ∷ codes "14 now." ∷ []
unfolding chunk_stream chunk_deltas flush feed drain mask mask_on number_run plain_number fraction
    split_sentence sentence_chunks finalize_sentence words strip skip_spaces count_words
cut_number = refl

chunk_stream-ink_example :
    ink_all ascii (chunk_stream ascii (codes "At 3." ∷ codes "14 now." ∷ []))
    ≡ ink_all ascii (codes "At 3." ∷ codes "14 now." ∷ [])
chunk_stream-ink_example = chunk_stream-ink ascii refl (codes "At 3." ∷ codes "14 now." ∷ [])
