-- ===== src/Temporal/Blind.antt =====
-- The server over the runtime of internal/temporalruntime/runtime.go: the store of the process, from
-- which the dashboards and timelines are read, is never written.
use forge_mini.Base.{ℕ, String}
use forge_mini.Base.Machine.{Time}
use forge_mini.Base.Action.{ActionOn, ◌>>=◌, pure}
use forge_mini.Base.Preserves.{Preserves}
use forge_mini.Signals.{Codec}
use forge_mini.Workflow.Decisions.{HandleResult}
use forge_mini.Store.{Memory, get_workflow}
use forge_mini.App.System.{System}
use forge_mini.Temporal.Sdk.{Client}
use forge_mini.Temporal.Runtime.{get_workflow as state_of, answer, query_workflow}

module _ {K : Type 0} (json : Codec) (clock : ℕ → Time) (client : Client K) (queue : String)
    (Q : Memory → Type 0) where
  abbrev Store : System K → Type 0
  Store s = Q s.world.memory

  abbrev answered : String → ActionOn (System K) HandleResult
  answered id = query_workflow json clock client queue id >>= λ wf. pure (answer wf)
