-- ===== src/Agents/TaskAgent/Stream/Corrected.antt =====
-- agents/task_agent.py: a streamed draft in the wrong language.
use sarvam.Prelude.{[], Text}
use sarvam.Agents.Directive.{Violation}
use sarvam.Agents.TaskAgent.{Host, Turn}
use sarvam.Agents.TaskAgent.Speaking.{violated, Spoken}

module _ {Obj W : Type 0} (h : Host Obj W) (turn : Turn Obj W) where
  abbrev refused : Text → Text → Violation → Spoken
  refused acc tail v = record {
    deltas = [];
    accumulated = acc;
    marker_tail = tail;
    left = violated v;
  }
