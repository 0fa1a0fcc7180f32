-- ===== src/Speech/Audio.antt =====
-- speech/audio_validation.py: which audio may go on, judged by its bytes alone; and the routing of
-- speech/tts_provider_policy.py.
pub mod Frames
mod Examples
use sarvam.Prelude.{
  ℕ, ◌*◌, ◌%◌, ◌/◌, Bool, true, false, ◌&&◌, ◌||◌, not, Option, none, some, List, [], ◌∷◌, String,
  Text, codes, length, take, drop, ltb, leb, ◌==◌, str_eq, any, keep, if◌then◌else◌, starts_with,
}

abbrev pub max_frame_bytes : ℕ
max_frame_bytes = 64000

-- `AudioValidationResult`: none where it is ok, else the reason.
abbrev pub AudioValidationResult : Type 0
AudioValidationResult = Option Text

-- Bytes are numbers; `data[0:4] == b"RIFF" and data[8:12] == b"WAVE"`.
unfoldable pub is_wav_header : List ℕ → Bool
is_wav_header frame =
    leb 12 (length frame)
    && (starts_with frame (codes "RIFF") && starts_with (drop 8 frame) (codes "WAVE"))

unfoldable pub validate_wav : List ℕ → AudioValidationResult
unfolding is_wav_header
validate_wav frame =
    if not (is_wav_header frame)
    then some (codes "not a valid WAV file (missing RIFF/WAVE magic bytes)")
    else if ltb (max_frame_bytes * 100) (length frame)
    then some (codes "WAV payload exceeds the maximum allowed size")
    else none

unfoldable pub is_silent_frame : List ℕ → Bool
is_silent_frame frame = not (any (λ b. not (b == 0)) frame)

-- `int(sample_rate * 0.032) * 2`: 256 samples at 8 kHz and 512 at 16 kHz, of two bytes each.
unfoldable pub expected_frame_bytes : ℕ → ℕ
expected_frame_bytes sample_rate = (sample_rate * 32 / 1000) * 2

unfoldable pub validate_pcm_frame : List ℕ → ℕ → AudioValidationResult
unfolding expected_frame_bytes
validate_pcm_frame frame sample_rate =
    if not ((sample_rate == 8000) || (sample_rate == 16000))
    then some (codes "unsupported sample rate")
    else if length frame == 0
    then some (codes "empty frame")
    else if not (length frame % 2 == 0)
    then some (codes "frame byte count is not a whole number of 16-bit samples")
    else if ltb max_frame_bytes (length frame)
    then some (codes "frame exceeds maximum allowed size")
    else if ltb (expected_frame_bytes sample_rate * 20) (length frame)
    then some (codes "frame far exceeds the expected 32ms-frame size")
    else none

-- `select_tts_provider`: the languages that Sarvam's speech synthesis does not have.
unfoldable pub select_tts_provider : String → String
select_tts_provider language =
    if str_eq language "as" || str_eq language "ur" then "fallback" else "sarvam"

-- A set is a list; the sorting of the result is left out.
unfoldable pub languages_missing_tts_coverage : List String → Bool → List String
unfolding select_tts_provider
languages_missing_tts_coverage supported fallback_configured =
    if fallback_configured
    then []
    else keep (λ l. str_eq (select_tts_provider l) "fallback") supported
