-- ===== src/Gateway/Duplex.antt =====
-- speech_gateway/duplex_session.py, with the parts of speech_gateway/main.py's `converse_ws` that
-- drive it: a full-duplex session that a barge-in interrupts.
--
-- Tasks and cancellation tokens are objects with an identity, so they are numbers here, and the
-- event loop's own state says which tasks still run and which tokens have fired.
pub mod Interrupt
pub mod Steps
pub mod Kept
pub mod Reach
mod Examples
use sarvam.Prelude.{
  ℕ, ◌+◌, ◌≡◌, Bool, true, false, Option, none, some, List, [], ◌∷◌, ◌++◌, ◌==◌, if◌then◌else◌,
}
use sarvam.Supervisor.Session.{
  SessionPhase, listening, thinking, speaking, SessionStateMachine, new_machine, transition_to,
  barge_in,
}

pub record Loop : Type 0 where
  pub next_task : ℕ
  pub live : ℕ → Bool
  pub next_token : ℕ
  pub fired : ℕ → Bool

pub data Event : Type 0 where
  barge_in_detected : Event

pub record DuplexSession : Type 0 where
  pub state : SessionStateMachine
  pub cancellation_token : ℕ
  pub events : List Event
  pub task_agent_task : Option ℕ
  pub tts_task : Option ℕ
  pub turn_task : Option ℕ

pub record World : Type 0 where
  pub session : DuplexSession
  pub loop : Loop

abbrev pub update : (ℕ → Bool) → ℕ → Bool → ℕ → Bool
update f k b j = if j == k then b else f j

-- What asyncio does when a task is cancelled and then awaited: the task has ended, others that it
-- was awaiting may have ended with it, and no task has come to life.
pub record Asyncio : Type 0 where
  pub settle : (ℕ → Bool) → ℕ → ℕ → Bool
  pub settle_self : (live : ℕ → Bool) (t : ℕ) → settle live t t ≡ false
  pub settle_mono : (live : ℕ → Bool) (t u : ℕ) → settle live t u ≡ true → live u ≡ true

-- `asyncio.ensure_future`: the new task's identity is fresh.
unfoldable pub spawn : Loop → Loop × ℕ
spawn l =
    (record l { next_task = l.next_task + 1; live = update l.live l.next_task true }, l.next_task)

-- `CancellationToken()`
unfoldable pub new_token : Loop → Loop × ℕ
new_token l = (
  record l { next_token = l.next_token + 1; fired = update l.fired l.next_token false },
  l.next_token,
)

unfoldable pub start : World
unfolding new_token
start =
    let l : Loop = record {
      next_task = 0;
      live = λ _. false;
      next_token = 0;
      fired = λ _. false;
    } in
    let (l', t) = new_token l in
    record {
      session = record {
        state = new_machine;
        cancellation_token = t;
        events = [];
        task_agent_task = none;
        tts_task = none;
        turn_task = none;
      };
      loop = l';
    }

unfoldable pub register_turn_task : ℕ → DuplexSession → DuplexSession
register_turn_task t s = record s { turn_task = some t }

unfoldable pub start_thinking : ℕ → DuplexSession → DuplexSession
unfolding transition_to
start_thinking t s = record s { state = transition_to thinking s.state; task_agent_task = some t }

unfoldable pub start_speaking : ℕ → DuplexSession → DuplexSession
unfolding transition_to
start_speaking t s = record s { state = transition_to speaking s.state; tts_task = some t }

unfoldable pub finish_turn : World → World
unfolding transition_to new_token
finish_turn w =
    let (l, t) = new_token w.loop in
    record {
      session = record w.session {
        task_agent_task = none;
        tts_task = none;
        turn_task = none;
        cancellation_token = t;
        state = transition_to listening w.session.state;
      };
      loop = l;
    }

-- `converse_ws` on a final transcript: a turn starts only when the session is listening, and the
-- phase and the turn's task are set in the same statement sequence.
unfoldable pub on_final_transcript : World → World
unfolding spawn register_turn_task transition_to
on_final_transcript w =
    let (l, t) = spawn w.loop in
    let s = record (w.session) { state = transition_to thinking w.session.state } in
    elim w.session.state.phase [
      | listening ↦ record { session = register_turn_task t s; loop = l }
      | _ ↦ w
    ]

-- `self.cancellation_token.cancel()`
unfoldable pub fire_token : World → World
fire_token w = record w {
  loop = record (w.loop) { fired = update w.loop.fired w.session.cancellation_token true };
}

-- What follows the last await: the slots are emptied, and there is a fresh token and an event.
unfoldable pub reset : World → World
unfolding new_token
reset w =
    let (l, t) = new_token w.loop in
    record {
      session = record (w.session) {
        task_agent_task = none;
        tts_task = none;
        turn_task = none;
        cancellation_token = t;
        events = w.session.events ++ barge_in_detected ∷ [];
      };
      loop = l;
    }

-- The first part of `handle_vad_speech_start`, up to its first await.
unfoldable pub begin_barge_in : World → World × Bool
unfolding fire_token barge_in
begin_barge_in w =
    let (m, was_active) = barge_in w.session.state in
    let w' = record w { session = record (w.session) { state = m } } in
    if was_active then (fire_token w', true) else (w', false)

module _ (a : Asyncio) where
  unfoldable pub cancel_and_await : Option ℕ → Loop → Loop
  cancel_and_await none l = l
  cancel_and_await (some t) l = if l.live t then record l { live = a.settle l.live t } else l

  -- The three awaits of a barge-in; other tasks run while one of them waits. Each reads its slot when
  -- it begins.
  unfoldable pub end_turn_task : World → World
  end_turn_task w = record w { loop = cancel_and_await w.session.turn_task w.loop }

  unfoldable pub end_task_agent_task : World → World
  end_task_agent_task w = record w { loop = cancel_and_await w.session.task_agent_task w.loop }

  unfoldable pub end_tts_task : World → World
  end_tts_task w = record w { loop = cancel_and_await w.session.tts_task w.loop }

  -- The interrupt, where nothing else runs while it waits.
  unfoldable pub interrupt : World → World
  unfolding fire_token end_turn_task end_task_agent_task end_tts_task reset
  interrupt w = reset (end_tts_task (end_task_agent_task (end_turn_task (fire_token w))))

  -- The whole of it, where nothing else runs while it waits.
  unfoldable pub handle_vad_speech_start : World → World × Bool
  unfolding interrupt barge_in
  handle_vad_speech_start w =
      let (m, was_active) = barge_in w.session.state in
      let w' = record w { session = record (w.session) { state = m } } in
      if was_active then (interrupt w', true) else (w', false)
