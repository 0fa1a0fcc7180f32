-- ===== src/Agents/TaskAgent/Stream/Ends.antt =====
-- agents/task_agent.py: how a streamed turn ends.
use sarvam.Prelude.{◌≡◌, ◌⊎◌, inl, inr, refl, Option, some, List, [], ◌∷◌, ◌++◌, String, Text, map}
use sarvam.Agents.Directive.{Violation}
use sarvam.Agents.TaskAgent.{Host, Turn, State}
use sarvam.Agents.TaskAgent.Finish.{build_system_prompt}
use sarvam.Agents.TaskAgent.Stream.{TurnDone, TurnEvent, text_delta, done, open_stream}
use sarvam.Agents.TaskAgent.Speaking.{Left, violated, leaked, exhausted}
use sarvam.Agents.TaskAgent.Sniffing.{StreamEnd, failed}
use sarvam.LlmAdapter.Messages.{other_error, Streamed}
use sarvam.LlmAdapter.Router.{Router, Done, stream_with_fallback}

module _ {Obj W : Type 0} (h : Host Obj W) (turn : Turn Obj W) where
  abbrev pub shown : List Text → List (TurnEvent Obj)
  shown ts = map (λ t. text_delta t) ts

  -- Some texts, and then the end of the turn.
  pub data Closed : List (TurnEvent Obj) → Type 0 where
    closing : (ts : List Text) (d : TurnDone Obj) → Closed (shown ts ++ (done d ∷ []))

  pub Left-cases :
      (l : Left) → (l ≡ exhausted) ⊎ (l ≡ leaked) ⊎ ((v : Violation) × (l ≡ violated v))
  Left-cases exhausted = inl refl
  Left-cases leaked = inr (inl refl)
  Left-cases (violated v) = inr (inr (v, refl))

  -- The events of a turn whose stream ended as given: texts and the `done` event, or, only after an
  -- exception that is no provider error, texts alone.
  pub data Ended (end : StreamEnd) (es : List (TurnEvent Obj)) : Type 0 where
    closed : Closed es → Ended end es
    broken_off : end ≡ failed other_error → (ts : List Text) → es ≡ shown ts → Ended end es

  abbrev Ending : StreamEnd → Option (List (TurnEvent Obj) × State Obj W h) → Type 0
  Ending end o = (r : List (TurnEvent Obj) × State Obj W h) × (o ≡ some r) × Ended end r.0

  -- What the model streams for a turn.
  abbrev pub raw_stream :
      Router h.providers.P → Option h.gate.State → W → Done Streamed h.providers.P W
  raw_stream router gate world =
      let s = (open_stream h turn router gate world).1 in
      stream_with_fallback h.providers s.messages (some (build_system_prompt h turn)) s.router
        s.world

  abbrev pub after_raw : Router h.providers.P → Option h.gate.State → W → State Obj W h
  after_raw router gate world =
      let raw = raw_stream router gate world in
      record (open_stream h turn router gate world).1 { router = raw.router; world = raw.world }

  abbrev pub tool_names : List String
  tool_names = map (λ t. t.0) turn.tools

  -- The events of a streamed turn: texts and then the `done` event, or texts alone after the stream
  -- of the model broke off with an exception that is no provider error.
  pub data StreamedTurn (raw : Streamed) (es : List (TurnEvent Obj)) : Type 0 where
    closed_turn : Closed es → StreamedTurn raw es
    raised : raw.failure ≡ some other_error → (ts : List Text) → es ≡ shown ts → StreamedTurn raw es
