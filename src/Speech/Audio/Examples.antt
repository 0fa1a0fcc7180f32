-- ===== src/Speech/Audio/Examples.antt =====
-- Tests and witnesses of the audio checks.
use sarvam.Prelude.{ℕ, ◌%◌, ◌≤◌, ◌<◌, ◌≡◌, ◌⊎◌, ◌↔◌, refl, none, List, [], ◌∷◌, length}
use sarvam.Speech.Audio.{validate_pcm_frame}
use sarvam.Speech.Audio.Frames.{validate_pcm_frame-accepts}

abbrev rate : ℕ
rate = 8000

abbrev zeros : List ℕ
zeros = 0 ∷ 0 ∷ []

abbrev one_sample : List ℕ
one_sample = 7 ∷ 0 ∷ []

sample_accepted : validate_pcm_frame one_sample rate ≡ none
unfolding validate_pcm_frame
sample_accepted = refl

validate_pcm_frame-accepts_example : (validate_pcm_frame one_sample rate ≡ none) ↔ (
    (length one_sample % 2 ≡ 0)
    × (0 < length one_sample)
    × (((rate ≡ 8000) × (length one_sample ≤ 10240))
        ⊎ ((rate ≡ 16000) × (length one_sample ≤ 20480))))
validate_pcm_frame-accepts_example = validate_pcm_frame-accepts one_sample rate
