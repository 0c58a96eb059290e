-- ===== src/Workflow/Run.antt =====
-- A unit under a sequence of events: what either runtime keeps of the engine's answers, the snapshot
-- and the decisions. A signal whose payload does not decode changes nothing.
pub mod Orderly
pub mod Counts
use forge_mini.Base.{List, [], ◌∷◌, ◌++◌}
use forge_mini.Base.Errors.{Result, ok, err}
use forge_mini.Base.Machine.{Time}
use forge_mini.Signals.{OperationalSignal, Codec}
use forge_mini.Policy.{RetryPolicy}
use forge_mini.Workflow.State.{UnitWorkflow}
use forge_mini.Workflow.Decisions.{WorkflowDecision, TimerPayload, TransitionResult}
use forge_mini.Workflow.Engine.{apply_signal, apply_timer}

pub data Event : Type 0 where
  signalled : OperationalSignal → Time → Event
  fired : TimerPayload → Time → Event

-- what is kept of the answer to a signal
unfoldable pub kept : UnitWorkflow → Result TransitionResult → UnitWorkflow × List WorkflowDecision
kept wf (ok r) = (r.next_workflow, r.decisions)
kept wf (err e) = (wf, [])

module _ (json : Codec) (policy : RetryPolicy) where
  unfoldable pub step : UnitWorkflow → Event → UnitWorkflow × List WorkflowDecision
  unfolding kept
  step wf (signalled s now) = kept wf (apply_signal json policy wf s now)
  step wf (fired p now) = let r = apply_timer wf p now in (r.next_workflow, r.decisions)

  unfoldable pub run : UnitWorkflow → List Event → UnitWorkflow × List WorkflowDecision
  run wf [] = (wf, [])
  run wf (e ∷ es) =
      let (next, decisions) = step wf e in
      let (final, more) = run next es in (final, decisions ++ more)
