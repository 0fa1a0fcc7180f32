-- ===== src/Gateway/Duplex/Kept.antt =====
-- What every step of a session keeps: live tasks are in a slot or at their last message, and the parts
-- of a barge-in that are over have ended their tasks.
use sarvam.Prelude.{
  ℕ, ◌<◌, ◌≡◌, refl, Bool, true, false, if◌then◌else◌, Option, none, some, arith, Bool-cases, inl,
  inr, ◌⊎◌,
}
use sarvam.Supervisor.Session.{listening, is_active}
use sarvam.Gateway.Duplex.{
  Loop, World, Asyncio, DuplexSession, update, new_token, start, on_final_transcript, finish_turn,
  begin_barge_in, fire_token, cancel_and_await, end_turn_task, end_task_agent_task, end_tts_task,
  reset,
}
use sarvam.Gateway.Duplex.Interrupt.{
  Ended, Ended-not_live, cancel_and_await-Ended, cancel_and_await_mono, cancel_and_await_keeps,
  cancel_and_await_frame, is_active-phase,
}
use sarvam.Gateway.Duplex.Steps.{
  Barging, not_barging, ends_turn, ends_thinking, ends_speaking, System, boot, begin_think,
  begin_speak, end_task,
}

abbrev pub Owns : DuplexSession → ℕ → Type 0
Owns s u = (s.turn_task ≡ some u) ⊎ (s.task_agent_task ≡ some u) ⊎ (s.tts_task ≡ some u)

-- The first and the second await of a barge-in are over.
abbrev pub past_turn : Barging → Bool
past_turn not_barging = false
past_turn ends_turn = false
past_turn ends_thinking = true
past_turn ends_speaking = true

abbrev pub past_thinking : Barging → Bool
past_thinking not_barging = false
past_thinking ends_turn = false
past_thinking ends_thinking = false
past_thinking ends_speaking = true

pub record Inv (s : System) : Type 0 where
  pub fresh : (u : ℕ) → s.world.loop.live u ≡ true → u < s.world.loop.next_task
  pub owned : (u : ℕ) → s.world.loop.live u ≡ true → Owns s.world.session u ⊎ (s.tails u ≡ true)
  pub idle :
      s.world.session.state.phase ≡ listening
      → s.barging ≡ not_barging
      → (s.world.session.turn_task ≡ none)
        × (s.world.session.task_agent_task ≡ none)
        × (s.world.session.tts_task ≡ none)
  pub turn_over : past_turn s.barging ≡ true → Ended s.world.loop s.world.session.turn_task
  pub thinking_over :
      past_thinking s.barging ≡ true → Ended s.world.loop s.world.session.task_agent_task

not_past : (b : Barging) → b ≡ not_barging → (past_turn b ≡ false) × (past_thinking b ≡ false)
not_past b e = rw e (refl, refl)

pub boot-Inv : Inv boot
unfolding start
boot-Inv = record {
  fresh = λ u h. cc;
  owned = λ u h. cc;
  idle = λ h k. (refl, refl, refl);
  turn_over = λ h. cc;
  thinking_over = λ h. cc;
}

pub transcript-Inv :
    (s : System)
    → s.barging ≡ not_barging
    → Inv s
    → Inv (record s { world = on_final_transcript s.world })
unfolding on_final_transcript
transcript-Inv s b v = record {
  fresh = λ u h. ground (arith, v.fresh u);
  owned = λ u h. ground (arith, v.owned u, v.idle, b);
  idle = λ h k. ground (arith, v.idle);
  turn_over = λ h. cc (h, (not_past s.barging b).0);
  thinking_over = λ h. cc (h, (not_past s.barging b).1);
}

pub think-Inv :
    (s : System) (t : ℕ)
    → s.world.session.turn_task ≡ some t
    → s.world.session.task_agent_task ≡ none
    → s.barging ≡ not_barging
    → Inv s
    → Inv (record s { world = begin_think s.world })
unfolding begin_think
think-Inv s t ht hk b v = record {
  fresh = λ u h. ground (arith, v.fresh u);
  owned = λ u h. ground (arith, v.owned u);
  idle = λ h. cc;
  turn_over = λ h. cc (h, (not_past s.barging b).0);
  thinking_over = λ h. cc (h, (not_past s.barging b).1);
}

pub speak-Inv :
    (s : System) (t k : ℕ)
    → s.world.session.task_agent_task ≡ some k
    → s.world.loop.live k ≡ false
    → s.world.session.tts_task ≡ none
    → s.barging ≡ not_barging
    → Inv s
    → Inv (record s { world = begin_speak s.world })
unfolding begin_speak
speak-Inv s t k hk dead hj b v = record {
  fresh = λ u h. ground (arith, v.fresh u);
  owned = λ u h. ground (arith, v.owned u);
  idle = λ h. cc;
  turn_over = λ h. cc (h, (not_past s.barging b).0);
  thinking_over = λ h. cc (h, (not_past s.barging b).1);
}

pub finish-Inv :
    (s : System) (t k j : ℕ)
    → s.world.session.turn_task ≡ some t
    → s.world.session.task_agent_task ≡ some j
    → s.world.loop.live j ≡ false
    → s.world.session.tts_task ≡ some k
    → s.world.loop.live k ≡ false
    → s.barging ≡ not_barging
    → Inv s
    → Inv (record s { world = finish_turn s.world; tails = update s.tails t true })
unfolding finish_turn
finish-Inv s t k j ht hj jd hk kd b v = record {
  fresh = λ u h. ground (arith, v.fresh u);
  owned = λ u h. ground (arith, v.owned u);
  idle = λ h k. (refl, refl, refl);
  turn_over = λ h. cc (h, (not_past s.barging b).0);
  thinking_over = λ h. cc (h, (not_past s.barging b).1);
}

-- Ended tasks stay ended where no task comes to life.
Ended-mono :
    (l l' : Loop) (o : Option ℕ)
    → ((u : ℕ) → l'.live u ≡ true → l.live u ≡ true)
    → Ended l o
    → Ended l' o
Ended-mono l l' none m h = tt
Ended-mono l l' (some t) m h = elim (Bool-cases (l'.live t)) [ inl e ↦ cc (h, m t e) | inr e ↦ e ]

end_task-live : (w : World) (u x : ℕ) → (end_task u w).loop.live x ≡ true → w.loop.live x ≡ true
unfolding end_task
end_task-live w u x h = ground arith

pub completed-Inv : (s : System) (u : ℕ) → Inv s → Inv (record s { world = end_task u s.world })
unfolding end_task
completed-Inv s u v = record {
  fresh = λ x h. ground (arith, v.fresh x);
  owned = λ x h. ground (arith, v.owned x);
  idle = λ h. v.idle h;
  turn_over = λ h.
      Ended-mono s.world.loop (end_task u s.world).loop _ (end_task-live s.world u) (v.turn_over h);
  thinking_over = λ h.
      Ended-mono s.world.loop (end_task u s.world).loop _ (end_task-live s.world u)
        (v.thinking_over h);
}

-- A speech start leaves the tasks and the slots alone, and the session listens.
pub speech_start-Inv :
    (s : System)
    → s.barging ≡ not_barging
    → Inv s
    → Inv (record s {
      world = (begin_barge_in s.world).0;
      barging = if (begin_barge_in s.world).1 then ends_turn else not_barging;
    })
unfolding begin_barge_in fire_token
speech_start-Inv s b v = elim (Bool-cases (is_active s.world.session.state.phase)) [
  | inl e ↦ rw e (record {
    fresh = v.fresh;
    owned = v.owned;
    idle = λ h k. cc;
    turn_over = λ h. cc;
    thinking_over = λ h. cc;
  })
  | inr e ↦ rw e (record {
    fresh = v.fresh;
    owned = v.owned;
    idle = λ h k. v.idle (is_active-phase _ e) b;
    turn_over = λ h. cc;
    thinking_over = λ h. cc;
  })
]

module _ (a : Asyncio) where
  -- Ending a task of a slot keeps what is known of the others.
  still-fresh :
      (s : System) (o : Option ℕ) (u : ℕ)
      → Inv s
      → (cancel_and_await a o s.world.loop).live u ≡ true
      → u < (cancel_and_await a o s.world.loop).next_task
  still-fresh s o u v h =
      rw ((cancel_and_await_frame a o s.world.loop).2)
        (v.fresh u (cancel_and_await_mono a o s.world.loop u h))

  pub turn_ended-Inv :
      (s : System)
      → s.barging ≡ ends_turn
      → Inv s
      → Inv (record s { world = end_turn_task a s.world; barging = ends_thinking })
  unfolding end_turn_task
  turn_ended-Inv s b v = record {
    fresh = λ u h. still-fresh s s.world.session.turn_task u v h;
    owned = λ u h. v.owned u (cancel_and_await_mono a s.world.session.turn_task s.world.loop u h);
    idle = λ h k. cc;
    turn_over = λ h. cancel_and_await-Ended a s.world.session.turn_task s.world.loop;
    thinking_over = λ h. cc;
  }

  pub thinking_ended-Inv :
      (s : System)
      → s.barging ≡ ends_thinking
      → Inv s
      → Inv (record s { world = end_task_agent_task a s.world; barging = ends_speaking })
  unfolding end_task_agent_task
  thinking_ended-Inv s b v = record {
    fresh = λ u h. still-fresh s s.world.session.task_agent_task u v h;
    owned =
        λ u h. v.owned u (cancel_and_await_mono a s.world.session.task_agent_task s.world.loop u h);
    idle = λ h k. cc;
    turn_over = λ h.
        cancel_and_await_keeps a s.world.session.task_agent_task s.world.session.turn_task
          s.world.loop (v.turn_over (rw b refl));
    thinking_over = λ h. cancel_and_await-Ended a s.world.session.task_agent_task s.world.loop;
  }

  -- A task that is alive when the last await is over is in no slot.
  tail_only :
      (s : System) (u : ℕ)
      → s.barging ≡ ends_speaking
      → Inv s
      → (cancel_and_await a s.world.session.tts_task s.world.loop).live u ≡ true
      → s.tails u ≡ true
  tail_only s u b v h =
      let l = cancel_and_await a s.world.session.tts_task s.world.loop in
      let before = cancel_and_await_mono a s.world.session.tts_task s.world.loop u h in
      let turn = v.turn_over (rw b refl) in
      let thought = v.thinking_over (rw b refl) in
      elim (v.owned u before) [
        | inr t ↦ t
        | inl (inl e) ↦ cc (before, Ended-not_live s.world.loop s.world.session.turn_task u turn e)
        | inl (inr (inl e)) ↦
            cc (before, Ended-not_live s.world.loop s.world.session.task_agent_task u thought e)
        | inl (inr (inr e)) ↦ cc (
          h,
          Ended-not_live l s.world.session.tts_task u
              (cancel_and_await-Ended a s.world.session.tts_task s.world.loop) e,
        )
      ]

  pub speaking_ended-Inv :
      (s : System)
      → s.barging ≡ ends_speaking
      → Inv s
      → Inv (record s { world = reset (end_tts_task a s.world); barging = not_barging })
  unfolding reset end_tts_task new_token
  speaking_ended-Inv s b v = record {
    fresh = λ u h. still-fresh s s.world.session.tts_task u v h;
    owned = λ u h. inr (tail_only s u b v h);
    idle = λ h k. (refl, refl, refl);
    turn_over = λ h. cc;
    thinking_over = λ h. cc;
  }
