-- ===== src/Speech/Audio/Frames.antt =====
-- What a frame that is let through is like.
use sarvam.Prelude.{
  ℕ, ◌%◌, ◌≤◌, ◌<◌, ◌≡◌, ◌⊎◌, refl, true, none, List, [], ◌∷◌, length, arith, ◌↔◌, All,
}
use sarvam.Speech.Audio.{expected_frame_bytes, validate_pcm_frame, is_silent_frame}

-- A frame of raw audio is let through exactly when it claims one of the two rates and holds one or
-- more whole 16-bit samples, no more than twenty frames of 32 ms at that rate: 10,240 bytes at 8 kHz
-- and 20,480 at 16 kHz.
pub validate_pcm_frame-accepts :
    (frame : List ℕ) (rate : ℕ)
    → (validate_pcm_frame frame rate ≡ none) ↔ (
        (length frame % 2 ≡ 0)
        × (0 < length frame)
        × (((rate ≡ 8000) × (length frame ≤ 10240)) ⊎ ((rate ≡ 16000) × (length frame ≤ 20480))))
unfolding validate_pcm_frame expected_frame_bytes
validate_pcm_frame-accepts frame rate = (ground arith, ground arith)

-- A frame is silent exactly when every byte of it is zero.
pub is_silent_frame-zero :
    (frame : List ℕ) → (is_silent_frame frame ≡ true) ↔ All (λ b. b ≡ 0) frame
unfolding is_silent_frame
is_silent_frame-zero [] = (λ h. tt, λ h. refl)
is_silent_frame-zero (b ∷ t) = ground (arith, is_silent_frame-zero t)
