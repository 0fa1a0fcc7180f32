-- ===== src/LlmAdapter/Router/Examples.antt =====
-- Witnesses of the router: the first of two providers is rate limited, the second answers. The world
-- is the number of calls so far.
use sarvam.Prelude.{
  ℕ, suc, ◌≡◌, refl, true, none, some, String, [], ◌∷◌, Text, codes, ◌==◌, if◌then◌else◌,
}
use sarvam.LlmAdapter.Http.{ProviderError}
use sarvam.LlmAdapter.Messages.{Outcome, ok, err, provider_error, Streamed}
use sarvam.LlmAdapter.Router.{Router, attempt, attempt_stream}
use sarvam.LlmAdapter.Router.Fallback.{
  Answers, attempt-Answers, StreamsFrom, attempt_stream-StreamsFrom,
}

abbrev rate_limited : ProviderError
rate_limited = record { message = codes "HTTP 429"; retriable = true }

abbrev name_of : ℕ → String
name_of p = if p == 0 then "groq" else "gemini"

abbrev tick : ℕ → ℕ
tick w = w

abbrev ask : ℕ → ℕ → Outcome Text × ℕ
ask p w = (if p == 0 then err rate_limited else ok (codes "Hello"), suc w)

abbrev listen : ℕ → ℕ → Streamed × ℕ
listen p w = (
  if p == 0
      then record { chunks = []; failure = some (provider_error rate_limited) }
      else record { chunks = codes "Hel" ∷ codes "lo" ∷ []; failure = none },
  suc w,
)

abbrev two : Router ℕ
two = record { providers = 0 ∷ 1 ∷ []; rate_limited_until = [] }

second_answers : (attempt name_of tick ask (0 ∷ 1 ∷ []) none two 0).outcome ≡ ok (codes "Hello")
unfolding attempt
second_answers = refl

attempt-Answers_example :
    Answers ask
      (0 ∷ 1 ∷ [])
      none
      0
      (attempt name_of tick ask (0 ∷ 1 ∷ []) none two 0).outcome
      (attempt name_of tick ask (0 ∷ 1 ∷ []) none two 0).world
attempt-Answers_example = attempt-Answers name_of tick ask (0 ∷ 1 ∷ []) none two 0

attempt_stream-StreamsFrom_example :
    StreamsFrom name_of tick listen
      (0 ∷ 1 ∷ [])
      none
      0
      (attempt_stream name_of tick listen (0 ∷ 1 ∷ []) none two 0).outcome
      (attempt_stream name_of tick listen (0 ∷ 1 ∷ []) none two 0).world
attempt_stream-StreamsFrom_example =
    attempt_stream-StreamsFrom name_of tick listen (0 ∷ 1 ∷ []) none two 0
