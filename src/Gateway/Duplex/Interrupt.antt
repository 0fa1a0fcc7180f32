-- ===== src/Gateway/Duplex/Interrupt.antt =====
-- What a barge-in does to the session, to the tasks and to the token.
use sarvam.Prelude.{
  ℕ, ◌+◌, ◌<◌, ◌≡◌, refl, true, false, Option, none, some, [], ◌∷◌, ◌++◌, arith, ◌∙◌, ap, ◌⊎◌,
  Bool-cases, inl, inr,
}
use sarvam.Supervisor.Session.{SessionPhase, listening, thinking, speaking, is_active}
use sarvam.Gateway.Duplex.{
  Loop, World, Asyncio, barge_in_detected, update, new_token, cancel_and_await, begin_barge_in,
  fire_token, end_turn_task, end_task_agent_task, end_tts_task, reset, interrupt,
  handle_vad_speech_start,
}

-- The task in a slot, if there is one, has ended.
abbrev pub Ended : Loop → Option ℕ → Type 0
Ended l none = Unit
Ended l (some t) = l.live t ≡ false

module _ (a : Asyncio) where
  pub cancel_and_await-Ended : (o : Option ℕ) (l : Loop) → Ended (cancel_and_await a o l) o
  unfolding cancel_and_await
  cancel_and_await-Ended none l = tt
  cancel_and_await-Ended (some t) l = ground (arith, a.settle_self l.live t)

  -- No task comes to life.
  pub cancel_and_await_mono :
      (o : Option ℕ) (l : Loop) (u : ℕ) → (cancel_and_await a o l).live u ≡ true → l.live u ≡ true
  unfolding cancel_and_await
  cancel_and_await_mono none l u h = h
  cancel_and_await_mono (some t) l u h = ground (arith, a.settle_mono l.live t u)

  pub cancel_and_await_keeps :
      (o p : Option ℕ) (l : Loop) → Ended l p → Ended (cancel_and_await a o l) p
  cancel_and_await_keeps o none l h = tt
  cancel_and_await_keeps o (some u) l h = elim (Bool-cases ((cancel_and_await a o l).live u)) [
    | inl e ↦ ground (arith, cancel_and_await_mono o l u)
    | inr e ↦ e
  ]

  pub cancel_and_await_frame :
      (o : Option ℕ) (l : Loop)
      → ((cancel_and_await a o l).fired ≡ l.fired)
        × ((cancel_and_await a o l).next_token ≡ l.next_token)
        × ((cancel_and_await a o l).next_task ≡ l.next_task)
  unfolding cancel_and_await
  cancel_and_await_frame none l = (refl, refl, refl)
  cancel_and_await_frame (some t) l = ground arith

-- The interrupt sequence, seen from outside: `w` before the barge-in and `w'` after it.
pub record IsInterrupted (w w' : World) : Type 0 where
  pub listens : w'.session.state.phase ≡ listening
  pub turn_ended : Ended w'.loop w.session.turn_task
  pub think_ended : Ended w'.loop w.session.task_agent_task
  pub speak_ended : Ended w'.loop w.session.tts_task
  pub forgotten :
      (w'.session.turn_task ≡ none)
      × (w'.session.task_agent_task ≡ none)
      × (w'.session.tts_task ≡ none)
  pub old_fired : w'.loop.fired w.session.cancellation_token ≡ true
  pub new_unfired : w'.loop.fired w'.session.cancellation_token ≡ false
  pub reported : w'.session.events ≡ w.session.events ++ barge_in_detected ∷ []

Ended-new_token : (l : Loop) (o : Option ℕ) → Ended l o → Ended (new_token l).0 o
unfolding new_token
Ended-new_token l none h = h
Ended-new_token l (some t) h = h

pub Ended-not_live : (l : Loop) (o : Option ℕ) (u : ℕ) → Ended l o → o ≡ some u → l.live u ≡ false
Ended-not_live l none u e h = cc
Ended-not_live l (some t) u e h = ground arith

-- A task that is still alive after the interrupt was in no slot before it.
pub IsInterrupted-not_owned :
    (w w' : World) (u : ℕ)
    → IsInterrupted w w'
    → w'.loop.live u ≡ true
    → (w.session.turn_task ≡ some u)
      ⊎ (w.session.task_agent_task ≡ some u)
      ⊎ (w.session.tts_task ≡ some u)
    → ⊥
IsInterrupted-not_owned w w' u v h (inl e) =
    cc (h, Ended-not_live w'.loop w.session.turn_task u v.turn_ended e)
IsInterrupted-not_owned w w' u v h (inr (inl e)) =
    cc (h, Ended-not_live w'.loop w.session.task_agent_task u v.think_ended e)
IsInterrupted-not_owned w w' u v h (inr (inr e)) =
    cc (h, Ended-not_live w'.loop w.session.tts_task u v.speak_ended e)

pub is_active-phase : (p : SessionPhase) → is_active p ≡ false → p ≡ listening
is_active-phase listening h = refl
is_active-phase thinking h = cc
is_active-phase speaking h = cc

module _ (a : Asyncio) where
  fired_first : Loop → ℕ → Loop
  fired_first l t = record l { fired = update l.fired t true }

  -- The loop after the three tasks of the session have been cancelled, in the code's order.
  settled : World → Loop
  unfolding fired_first
  settled w = cancel_and_await a w.session.tts_task (
      cancel_and_await a w.session.task_agent_task
        (cancel_and_await a w.session.turn_task (fired_first w.loop w.session.cancellation_token)))

  settled-fired :
      (w : World) → (settled w).fired ≡ update w.loop.fired w.session.cancellation_token true
  unfolding settled
  settled-fired w =
      (cancel_and_await_frame a w.session.tts_task _).0
      ∙ (cancel_and_await_frame a w.session.task_agent_task _).0
      ∙ (cancel_and_await_frame a w.session.turn_task _).0

  settled-next_token : (w : World) → (settled w).next_token ≡ w.loop.next_token
  unfolding settled
  settled-next_token w =
      (cancel_and_await_frame a w.session.tts_task _).1
      ∙ (cancel_and_await_frame a w.session.task_agent_task _).1
      ∙ (cancel_and_await_frame a w.session.turn_task _).1

  settled-Ended :
      (w : World)
      → Ended (settled w) w.session.turn_task
        × Ended (settled w) w.session.task_agent_task
        × Ended (settled w) w.session.tts_task
  unfolding settled
  settled-Ended w = (
    cancel_and_await_keeps a w.session.tts_task w.session.turn_task _ (
        cancel_and_await_keeps a w.session.task_agent_task w.session.turn_task _
          (cancel_and_await-Ended a w.session.turn_task _)),
    cancel_and_await_keeps a w.session.tts_task w.session.task_agent_task _
        (cancel_and_await-Ended a w.session.task_agent_task _),
    cancel_and_await-Ended a w.session.tts_task _,
  )

  listens_at : World → World
  listens_at w = record w {
    session = record (w.session) { state = record (w.session.state) { phase = listening } };
  }

  handle_active :
      (w : World)
      → is_active w.session.state.phase ≡ true
      → handle_vad_speech_start a w ≡ (interrupt a (listens_at w), true)
  unfolding handle_vad_speech_start listens_at
  handle_active w h = rw h

  handle_idle :
      (w : World)
      → is_active w.session.state.phase ≡ false
      → handle_vad_speech_start a w ≡ (listens_at w, false)
  unfolding handle_vad_speech_start listens_at
  handle_idle w h = rw h

  interrupt-IsInterrupted :
      (w : World)
      → w.session.cancellation_token < w.loop.next_token
      → IsInterrupted w (interrupt a (listens_at w))
  unfolding interrupt fire_token end_turn_task end_task_agent_task end_tts_task reset listens_at
      settled fired_first
  interrupt-IsInterrupted w h = record {
    listens = refl;
    turn_ended = Ended-new_token (settled w) w.session.turn_task (settled-Ended w).0;
    think_ended = Ended-new_token (settled w) w.session.task_agent_task (settled-Ended w).1;
    speak_ended = Ended-new_token (settled w) w.session.tts_task (settled-Ended w).2;
    forgotten = (refl, refl, refl);
    old_fired = rw (settled-fired w, settled-next_token w) (ground arith);
    new_unfired = ground arith;
    reported = refl;
  }

  listens_at-eq : (w : World) → w.session.state.phase ≡ listening → listens_at w ≡ w
  unfolding listens_at
  listens_at-eq w h = cc

  -- A speech start while the session thinks or speaks, run to its end without another step between its
  -- awaits, returns true and interrupts the turn: the session listens, no task that it had registered is alive, its three slots are empty, the old
  -- token has fired, the new one has not, and one event is reported. The token must have been
  -- issued by this event loop.
  pub barge_in_interrupts :
      (w : World)
      → is_active w.session.state.phase ≡ true
      → w.session.cancellation_token < w.loop.next_token
      → IsInterrupted w (handle_vad_speech_start a w).0 × ((handle_vad_speech_start a w).1 ≡ true)
  barge_in_interrupts w h k = rw (handle_active w h) (interrupt-IsInterrupted w k, refl)

  -- Without steps in between, the parts make up the whole.
  handle-parts :
      (w : World)
      → is_active w.session.state.phase ≡ true
      → (handle_vad_speech_start a w).0
        ≡ reset (end_tts_task a (end_task_agent_task a (end_turn_task a (begin_barge_in w).0)))
  unfolding handle_vad_speech_start interrupt begin_barge_in
  handle-parts w h = rw h refl

  -- In a session that listens a speech start changes nothing and returns false.
  pub barge_in_idle :
      (w : World)
      → is_active w.session.state.phase ≡ false
      → handle_vad_speech_start a w ≡ (w, false)
  barge_in_idle w h = rw (handle_idle w h, listens_at-eq w (is_active-phase _ h))

  handle-phase : (w : World) → (handle_vad_speech_start a w).0.session.state.phase ≡ listening
  unfolding handle_vad_speech_start
  handle-phase w = ground arith

  -- A second speech start directly after a first one, from any state at all, changes nothing more
  -- and returns false.
  pub barge_in_twice :
      (w : World)
      → handle_vad_speech_start a (handle_vad_speech_start a w).0
        ≡ ((handle_vad_speech_start a w).0, false)
  barge_in_twice w = barge_in_idle _ (rw (handle-phase w))

  interrupt-live :
      (w : World) (u : ℕ) → (interrupt a (listens_at w)).loop.live u ≡ true → w.loop.live u ≡ true
  unfolding interrupt fire_token end_turn_task end_task_agent_task end_tts_task reset listens_at
  interrupt-live w u h = cancel_and_await_mono a w.session.turn_task _ u (
      cancel_and_await_mono a w.session.task_agent_task _ u
        (cancel_and_await_mono a w.session.tts_task _ u h))

  -- No task comes to life by a barge-in.
  pub handle-live :
      (w : World) (u : ℕ)
      → (handle_vad_speech_start a w).0.loop.live u ≡ true
      → w.loop.live u ≡ true
  handle-live w u h = elim (Bool-cases (is_active w.session.state.phase)) [
    | inl e ↦ interrupt-live w u (rw (handle_active w e) at h)
    | inr e ↦ rw (barge_in_idle w e) at h
  ]

  interrupt_counters :
      (w : World)
      → ((interrupt a (listens_at w)).loop.next_task ≡ w.loop.next_task)
        × ((interrupt a (listens_at w)).session.cancellation_token ≡ w.loop.next_token)
        × ((interrupt a (listens_at w)).loop.next_token ≡ w.loop.next_token + 1)
  unfolding interrupt fire_token end_turn_task end_task_agent_task end_tts_task reset listens_at
      settled fired_first
  interrupt_counters w = (
    (cancel_and_await_frame a w.session.tts_task _).2
        ∙ (cancel_and_await_frame a w.session.task_agent_task _).2
        ∙ (cancel_and_await_frame a w.session.turn_task _).2,
    settled-next_token w,
    ap (λ n. n + 1) (settled-next_token w),
  )

  -- No task is created, and the session's token is one that the loop has issued.
  pub handle_counters :
      (w : World)
      → w.session.cancellation_token < w.loop.next_token
      → ((handle_vad_speech_start a w).0.loop.next_task ≡ w.loop.next_task)
        × ((handle_vad_speech_start a w).0.session.cancellation_token
            < (handle_vad_speech_start a w).0.loop.next_token)
  handle_counters w h = elim (Bool-cases (is_active w.session.state.phase)) [
    | inl e ↦ rw (handle_active w e) (omega (arith, interrupt_counters w))
    | inr e ↦ rw (barge_in_idle w e) (refl, h)
  ]
