-- ===== src/Gateway/Duplex/Reach.antt =====
-- The session under every interleaving of the orchestrator's loop, the turn's task and the parts of a
-- barge-in.
use sarvam.Prelude.{ℕ, ◌≡◌, true, none, arith}
use sarvam.Supervisor.Session.{listening}
use sarvam.Gateway.Duplex.{Asyncio}
use sarvam.Gateway.Duplex.Steps.{
  not_barging, System, Step, transcript, think, speak, finish, completed, speech_start, turn_ended,
  thinking_ended, speaking_ended, Reach, here, next,
}
use sarvam.Gateway.Duplex.Kept.{
  Inv, boot-Inv, transcript-Inv, think-Inv, speak-Inv, finish-Inv, completed-Inv, speech_start-Inv,
  turn_ended-Inv, thinking_ended-Inv, speaking_ended-Inv,
}

module _ (a : Asyncio) where
  Step-Inv : {s s' : System} → Step a s s' → Inv s → Inv s'
  Step-Inv {s} (transcript b e) v = rw e (transcript-Inv s b v)
  Step-Inv {s} (think t ht tl hk b e) v = rw e (think-Inv s t ht hk b v)
  Step-Inv {s} (speak t k ht tl hk kd hj b e) v = rw e (speak-Inv s t k hk kd hj b v)
  Step-Inv {s} (finish t k j ht tl hj jd hk kd b e) v = rw e (finish-Inv s t k j ht hj jd hk kd b v)
  Step-Inv {s} (completed u e) v = rw e (completed-Inv s u v)
  Step-Inv {s} (speech_start b e) v = rw e (speech_start-Inv s b v)
  Step-Inv {s} (turn_ended b e) v = rw e (turn_ended-Inv a s b v)
  Step-Inv {s} (thinking_ended b e) v = rw e (thinking_ended-Inv a s b v)
  Step-Inv {s} (speaking_ended b e) v = rw e (speaking_ended-Inv a s b v)

  pub Reach-Inv : {s : System} → Reach a s → Inv s
  Reach-Inv here = boot-Inv
  Reach-Inv (next r st) = Step-Inv st (Reach-Inv r)

  -- However transcripts, turns, completions and the parts of barge-ins interleave: while the session
  -- listens and no barge-in is waiting for a task to end, its three slots are empty, and the only
  -- tasks that can still be alive are turn tasks that have finished their turn and have one last
  -- message to send. So no thinking or speaking goes on, and no new turn can overlap with an old one.
  pub no_orphan_task :
      {s : System}
      → Reach a s
      → s.world.session.state.phase ≡ listening
      → s.barging ≡ not_barging
      → (s.world.session.turn_task ≡ none)
        × (s.world.session.task_agent_task ≡ none)
        × (s.world.session.tts_task ≡ none)
        × ((u : ℕ) → s.world.loop.live u ≡ true → s.tails u ≡ true)
  no_orphan_task {s} r h b =
      let v = Reach-Inv r in
      let (x, y, z) = v.idle h b in (x, y, z, λ u l. ground (arith, v.owned u l))
