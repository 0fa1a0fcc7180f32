-- ===== src/Agents/TaskAgent/Stream/Window.antt =====
-- agents/task_agent.py: what the window of the stream decides of a streamed turn.
use sarvam.Prelude.{
  ℕ, ◌<◌, ◌≡◌, ◌≢◌, refl, Bool, true, false, Option, some, List, [], ◌∷◌, Text, length,
  if◌then◌else◌,
}
use sarvam.Agents.TaskAgent.{Host, Turn, TurnResult, State, llm_unavailable_apology}
use sarvam.Agents.TaskAgent.Stream.{
  TurnDone, TurnEvent, text_delta, done, plain_done, end_turn, chunks_of, stream_turn,
}
use sarvam.Agents.TaskAgent.Speaking.{exhausted, speak_chunks}
use sarvam.Agents.TaskAgent.Sniffing.{StreamEnd, finished, tool_call_detected, failed}
use sarvam.Agents.TaskAgent.Stream.Sniff.{concat, sniff_and_forward-broken}
use sarvam.LlmAdapter.Http.{ProviderError}
use sarvam.LlmAdapter.Messages.{provider_error}
use sarvam.LlmAdapter.Router.{Router}
use sarvam.Speech.Chunker.{chunk_deltas}
use sarvam.Agents.TaskAgent.Stream.Ends.{raw_stream, after_raw, tool_names}

module _ {Obj W : Type 0} (h : Host Obj W) (turn : Turn Obj W) where
  speak_chunks-nothing :
      (end : StreamEnd)
      → end ≢ finished
      → speak_chunks h turn [] [] false (chunks_of h turn ([], end))
        ≡ record { deltas = []; accumulated = []; marker_tail = []; left = exhausted }
  unfolding speak_chunks chunks_of chunk_deltas
  speak_chunks-nothing finished n = absurd (n refl)
  speak_chunks-nothing tool_call_detected n = refl
  speak_chunks-nothing (failed e) n = refl

  end_turn-nothing :
      (fuel : ℕ) (system : Text) (forced : Bool) (end : StreamEnd) (r : List Text × StreamEnd)
      (s : State Obj W h)
      → end ≢ finished
      → r ≡ ([], end)
      → end_turn h turn fuel system forced r.1
          (speak_chunks h turn [] [] false (chunks_of h turn r))
          s
        ≡ end_turn h turn fuel system forced end
            (record { deltas = []; accumulated = []; marker_tail = []; left = exhausted })
            s
  end_turn-nothing fuel system forced end r s n e = rw (e, speak_chunks-nothing end n) refl

  -- What a client is shown of a turn that was not streamed: after an error the `done` event alone, else
  -- the text and the `done` event, which has the result's text, count, verdict and pending question.
  pub record Relayed (r : TurnResult Obj) (es : List (TurnEvent Obj)) : Type 0 where
    pub last : TurnDone Obj
    pub events : es ≡ (if r.error then done last ∷ [] else text_delta r.text ∷ done last ∷ [])
    pub fields :
        (last.text ≡ r.text)
        × (last.tool_call_count ≡ r.tool_call_count)
        × (last.self_check_ok ≡ r.self_check_ok)
        × (last.pending_confirmation ≡ r.pending_confirmation)
        × (last.error ≡ r.error)

  -- Where no provider answers, or the one that does fails with an `LLMProviderError` before it has
  -- sent 200 characters, no
  -- text is shown at all: there is only the `done` event, with the apology and the error.
  pub stream_turn-provider_error :
      (fuel : ℕ) (router : Router h.providers.P) (gate : Option h.gate.State) (world : W)
      (e : ProviderError)
      → (raw_stream h turn router gate world).outcome.failure ≡ some (provider_error e)
      → length (concat (raw_stream h turn router gate world).outcome.chunks) < 200
      → stream_turn h turn fuel router gate world
        ≡ some (
          done (record (plain_done h turn llm_unavailable_apology) { error = true }) ∷ [],
          after_raw h turn router gate world,
        )
  unfolding stream_turn end_turn
  stream_turn-provider_error fuel router gate world e p short =
      end_turn-nothing fuel _ _ (failed (provider_error e)) _ (after_raw h turn router gate world)
        (λ q. cc q)
        (sniff_and_forward-broken (tool_names h turn) (raw_stream h turn router gate world).outcome
          (provider_error e) p short)
