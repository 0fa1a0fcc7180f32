-- ===== src/Gateway/Duplex/Steps.antt =====
-- The orchestrator of a session as a step relation: `converse_ws` and its `run_turn`
-- (speech_gateway/main.py) with the parts of a barge-in between its awaits.
use sarvam.Prelude.{ℕ, ◌≡◌, Bool, true, false, if◌then◌else◌, none, some}
use sarvam.Gateway.Duplex.{
  World, Asyncio, update, spawn, start, on_final_transcript, start_thinking, start_speaking,
  finish_turn, begin_barge_in, end_turn_task, end_task_agent_task, end_tts_task, reset,
}

-- Where the orchestrator's loop is in a barge-in: in none, or at one of its three awaits.
pub data Barging : Type 0 where
  not_barging : Barging
  ends_turn : Barging
  ends_thinking : Barging
  ends_speaking : Barging

-- `tails` marks the turn tasks that have called `finish_turn` and have only their last send left.
pub record System : Type 0 where
  pub world : World
  pub tails : ℕ → Bool
  pub barging : Barging

abbrev pub boot : System
boot = record { world = start; tails = λ _. false; barging = not_barging }

-- `think_task = ensure_future(...)` and `duplex.start_thinking(think_task)`
unfoldable pub begin_think : World → World
unfolding spawn start_thinking
begin_think w =
    let (l, t) = spawn w.loop in record { session = start_thinking t w.session; loop = l }

-- `speak_task = ensure_future(...)` and `duplex.start_speaking(speak_task)`
unfoldable pub begin_speak : World → World
unfolding spawn start_speaking
begin_speak w =
    let (l, t) = spawn w.loop in record { session = start_speaking t w.session; loop = l }

unfoldable pub end_task : ℕ → World → World
end_task u w = record w { loop = record (w.loop) { live = update w.loop.live u false } }

-- One step. A turn's own steps need its task to be alive, and its order is that of `run_turn`. While
-- the loop waits in a barge-in it reads no event, and the turn's task has been asked to end before the
-- first wait, so that it goes no further; but any task can end.
pub data Step (a : Asyncio) (s s' : System) : Type 0 where
  transcript :
      s.barging ≡ not_barging → s' ≡ record s { world = on_final_transcript s.world } → Step a s s'
  think :
      (t : ℕ)
      → s.world.session.turn_task ≡ some t
      → s.world.loop.live t ≡ true
      → s.world.session.task_agent_task ≡ none
      → s.barging ≡ not_barging
      → s' ≡ record s { world = begin_think s.world }
      → Step a s s'
  speak :
      (t k : ℕ)
      → s.world.session.turn_task ≡ some t
      → s.world.loop.live t ≡ true
      → s.world.session.task_agent_task ≡ some k
      → s.world.loop.live k ≡ false
      → s.world.session.tts_task ≡ none
      → s.barging ≡ not_barging
      → s' ≡ record s { world = begin_speak s.world }
      → Step a s s'
  finish :
      (t k j : ℕ)
      → s.world.session.turn_task ≡ some t
      → s.world.loop.live t ≡ true
      → s.world.session.task_agent_task ≡ some j
      → s.world.loop.live j ≡ false
      → s.world.session.tts_task ≡ some k
      → s.world.loop.live k ≡ false
      → s.barging ≡ not_barging
      → s' ≡ record s { world = finish_turn s.world; tails = update s.tails t true }
      → Step a s s'
  completed : (u : ℕ) → s' ≡ record s { world = end_task u s.world } → Step a s s'
  speech_start :
      s.barging ≡ not_barging
      → s' ≡ record s {
        world = (begin_barge_in s.world).0;
        barging = if (begin_barge_in s.world).1 then ends_turn else not_barging;
      }
      → Step a s s'
  turn_ended :
      s.barging ≡ ends_turn
      → s' ≡ record s { world = end_turn_task a s.world; barging = ends_thinking }
      → Step a s s'
  thinking_ended :
      s.barging ≡ ends_thinking
      → s' ≡ record s { world = end_task_agent_task a s.world; barging = ends_speaking }
      → Step a s s'
  speaking_ended :
      s.barging ≡ ends_speaking
      → s' ≡ record s { world = reset (end_tts_task a s.world); barging = not_barging }
      → Step a s s'

pub data Reach (a : Asyncio) : System → Type 0 where
  here : Reach a boot
  next : {s s' : System} → Reach a s → Step a s s' → Reach a s'
