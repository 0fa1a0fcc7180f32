-- ===== src/Gateway/Duplex/Examples.antt =====
-- Witnesses and tests of the duplex session, over an event loop that ends only the awaited task.
use sarvam.Prelude.{ℕ, ◌≡◌, refl, Bool, true, false, none, arith}
use sarvam.Supervisor.Session.{listening, thinking}
use sarvam.Gateway.Duplex.{
  World, Asyncio, update, start, on_final_transcript, handle_vad_speech_start, begin_barge_in,
  fire_token, end_turn_task, end_task_agent_task, end_tts_task, reset,
}
use sarvam.Gateway.Duplex.Interrupt.{IsInterrupted, barge_in_interrupts}
use sarvam.Gateway.Duplex.Steps.{
  System, Barging, not_barging, ends_turn, Reach, here, next, transcript, think, speech_start,
  turn_ended, thinking_ended, speaking_ended, begin_think,
}
use sarvam.Gateway.Duplex.Reach.{no_orphan_task}

plain_self : (live : ℕ → Bool) (t : ℕ) → update live t false t ≡ false
plain_self live t = ground arith

plain_mono : (live : ℕ → Bool) (t u : ℕ) → update live t false u ≡ true → live u ≡ true
plain_mono live t u h = ground arith

abbrev plain : Asyncio
plain = record {
  settle = λ live t. update live t false;
  settle_self = plain_self;
  settle_mono = plain_mono;
}

abbrev in_turn : World
in_turn = begin_think (on_final_transcript start)

in_turn-phase : in_turn.session.state.phase ≡ thinking
unfolding begin_think on_final_transcript start
in_turn-phase = refl

barge_in_interrupts_example :
    IsInterrupted in_turn (handle_vad_speech_start plain in_turn).0
    × ((handle_vad_speech_start plain in_turn).1 ≡ true)
unfolding begin_think on_final_transcript start
barge_in_interrupts_example = barge_in_interrupts plain in_turn refl (omega arith)

abbrev at : World → Barging → System
at w b = record { world = w; tails = λ _. false; barging = b }

Reach-started : Reach plain (at (on_final_transcript start) not_barging)
Reach-started = next here (transcript refl refl)

Reach-in_turn : Reach plain (at in_turn not_barging)
unfolding begin_think on_final_transcript start
Reach-in_turn = next Reach-started (think 0 refl refl refl refl refl)

-- The session listens already, and the turn's task is still alive.
abbrev waiting : System
waiting = at (begin_barge_in in_turn).0 ends_turn

Reach-waiting : Reach plain waiting
unfolding begin_barge_in begin_think on_final_transcript start
Reach-waiting = next Reach-in_turn (speech_start refl refl)

waiting_alive : (waiting.world.session.state.phase ≡ listening) × (waiting.world.loop.live 0 ≡ true)
unfolding begin_barge_in fire_token begin_think on_final_transcript start
waiting_alive = (refl, refl)

abbrev interrupted : System
interrupted =
    at (reset (end_tts_task plain (end_task_agent_task plain (end_turn_task plain waiting.world))))
      not_barging

Reach-interrupted : Reach plain interrupted
Reach-interrupted =
    next (next (next Reach-waiting (turn_ended refl refl)) (thinking_ended refl refl))
      (speaking_ended refl refl)

interrupted_listens : interrupted.world.session.state.phase ≡ listening
unfolding begin_barge_in reset end_tts_task end_task_agent_task end_turn_task begin_think
    on_final_transcript start
interrupted_listens = refl

no_orphan_task_example :
    (interrupted.world.session.turn_task ≡ none)
    × (interrupted.world.session.task_agent_task ≡ none)
    × (interrupted.world.session.tts_task ≡ none)
    × ((u : ℕ) → interrupted.world.loop.live u ≡ true → interrupted.tails u ≡ true)
no_orphan_task_example = no_orphan_task plain Reach-interrupted interrupted_listens refl
