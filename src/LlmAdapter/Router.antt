-- ===== src/LlmAdapter/Router.antt =====
-- llm_adapter/base.py: `LLMRouter`, the ordered list of providers with fallback and cooldown.
--
-- A provider is a parameter: calling it takes the world to its outcome and the world after it, and
-- `clock` reads `time.monotonic()` in whole ticks. The metrics and trace spans are left out.
pub mod Usable
pub mod Fallback
mod Examples
use sarvam.Prelude.{
  ℕ, ◌+◌, Bool, true, false, ◌||◌, not, Option, none, some, List, [], ◌∷◌, String, Text, codes,
  contains, Dict, lookup, insert, keep, leb, if◌then◌else◌, is_empty,
}
use sarvam.LlmAdapter.Http.{ProviderError}
use sarvam.LlmAdapter.Messages.{
  Message, ToolDefinition, CompletionResult, Outcome, ok, err, Failure, provider_error, other_error,
  Streamed, Providers,
}

abbrev pub cooldown : ℕ
cooldown = 30

abbrev pub no_providers : ProviderError
no_providers = record { message = codes "LLMRouter has no providers configured"; retriable = false }

pub record Router {ℓ} (P : Type ℓ) : Type ℓ where
  pub providers : List P
  pub rate_limited_until : Dict ℕ

module _ {ℓ} {P : Type ℓ} (name : P → String) where
  -- `self._rate_limited_until.get(p.name, 0.0)`
  unfoldable pub limited_until : Router P → P → ℕ
  limited_until r p = elim (lookup (name p) r.rate_limited_until) [ none ↦ 0 | some t ↦ t ]

  unfoldable pub usable_providers : ℕ → Router P → List P
  unfolding limited_until
  usable_providers now r =
      let usable = keep (λ p. leb (limited_until r p) now) r.providers in
      if is_empty usable then r.providers else usable

  unfoldable pub note_error : P → ProviderError → ℕ → Router P → Router P
  note_error p e now r =
      if contains e.message (codes "429")
      then record r { rate_limited_until = insert (name p) (now + cooldown) r.rate_limited_until }
      else r

-- What a call of the router leaves: its outcome, its own new state, and the world.
pub record Done (A P W : Type 0) : Type 0 where
  pub outcome : A
  pub router : Router P
  pub world : W

module _ {P W A : Type 0} (name : P → String) (clock : W → ℕ) (call : P → W → Outcome A × W) where
  -- The loop over the providers; `last` is `last_error`.
  unfoldable pub attempt : List P → Option ProviderError → Router P → W → Done (Outcome A) P W
  attempt [] none r w = record { outcome = err no_providers; router = r; world = w }
  attempt [] (some e) r w = record { outcome = err e; router = r; world = w }
  attempt (p ∷ ps) last r w =
      let (o, w') = call p w in
      elim o [
        | ok a ↦ record { outcome = ok a; router = r; world = w' }
        | err e ↦ elim e.retriable [
          | false ↦ record { outcome = err e; router = r; world = w' }
          | true ↦ attempt ps (some e) (note_error name p e (clock w') r) w'
        ]
      ]

module _ {P W : Type 0} (name : P → String) (clock : W → ℕ) (call : P → W → Streamed × W) where
  -- The same loop for a stream: once a chunk has gone out there is no fallback. The chunks of the
  -- failed providers before are none, so they are not collected. Only `LLMProviderError` is caught.
  unfoldable pub attempt_stream : List P → Option ProviderError → Router P → W → Done Streamed P W
  attempt_stream [] none r w = record {
    outcome = record { chunks = []; failure = some (provider_error no_providers) };
    router = r;
    world = w;
  }
  attempt_stream [] (some e) r w = record {
    outcome = record { chunks = []; failure = some (provider_error e) };
    router = r;
    world = w;
  }
  attempt_stream (p ∷ ps) last r w =
      let (s, w') = call p w in
      elim s.failure [
        | none ↦ record { outcome = s; router = r; world = w' }
        | some other_error ↦ record { outcome = s; router = r; world = w' }
        | some (provider_error e) ↦ elim (not (is_empty s.chunks) || not e.retriable) [
          | true ↦ record { outcome = s; router = r; world = w' }
          | false ↦ attempt_stream ps (some e) (note_error name p e (clock w') r) w'
        ]
      ]

module _ {Obj W : Type 0} (ps : Providers Obj W) where
  open ps use {P, name, clock, complete, complete_with_tools, stream}

  unfoldable pub complete_with_fallback :
      List (Message Obj) → Option Text → Option ℕ → Router P → W → Done (Outcome Text) P W
  complete_with_fallback messages system max_tokens r w =
      attempt name clock (λ p. complete p messages system max_tokens)
        (usable_providers name (clock w) r) none r w

  unfoldable pub complete_with_tools_and_fallback :
      List (Message Obj)
      → Option Text
      → List (ToolDefinition Obj)
      → Router P
      → W
      → Done (Outcome (CompletionResult Obj)) P W
  complete_with_tools_and_fallback messages system tools r w =
      attempt name clock (λ p. complete_with_tools p messages system tools)
        (usable_providers name (clock w) r) none r w

  unfoldable pub stream_with_fallback :
      List (Message Obj) → Option Text → Router P → W → Done Streamed P W
  stream_with_fallback messages system r w =
      attempt_stream name clock (λ p. stream p messages system) (usable_providers name (clock w) r)
        none r w
