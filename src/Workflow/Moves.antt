-- ===== src/Workflow/Moves.antt =====
-- Where a signal that the engine of internal/workflow/engine.go accepts takes a unit that has its
-- workflow identifier.
use forge_mini.Base.{◌≡◌, ◌≢◌, arith}
use forge_mini.Base.Errors.{Result, ok, err}
use forge_mini.Base.Machine.{Time}
use forge_mini.Signals.{
  SignalType, unit_admitted, station_entered, assembly_completed, test_started, test_passed,
  test_failed, heartbeat_received, quality_disposition, rework_started, rework_completed,
  inspection_completed, operator_override, other, OperationalSignal, Codec,
}
use forge_mini.Policy.{RetryPolicy}
use forge_mini.Workflow.State.{State, UnitWorkflow}
use forge_mini.Workflow.Decisions.{TransitionResult}
use forge_mini.Workflow.Cases.{
  disposition, on_unit_admitted, on_station_entered, on_assembly_completed, on_heartbeat,
  on_quality_disposition, on_rework_started, on_rework_completed, on_inspection_completed,
}
use forge_mini.Workflow.TestCases.{
  retry_branch, hold_branch, test_failure, on_test_started, on_test_failed, on_test_passed,
}
use forge_mini.Workflow.Outcome.{On, NextIs, apply_signal-NextIs}
use forge_mini.Workflow.Engine.{settle, dispatch, accepting, noted, apply_signal}
use forge_mini.Workflow.Lifecycle.{Advance, failures, AcceptedInto}
use forge_mini.Workflow.Lifecycle.Complete.{apply_signal-AcceptedInto_iff}
use forge_mini.Workflow.TimerInvariant.{known_workflow_named}
use forge_mini.Workflow.Run.{signalled, kept, step}

abbrev pub IsNamed : UnitWorkflow → Type 0
IsNamed wf = wf.workflow_id ≢ ""

module _ (json : Codec) (policy : RetryPolicy) (s : OperationalSignal) (now : Time) where
  dispatch-IsNamed :
      (ty : SignalType) (r : TransitionResult) (next : UnitWorkflow)
      → IsNamed next
      → On (λ n r. IsNamed n) (dispatch json policy ty r s now next)
  unfolding dispatch on_unit_admitted on_station_entered on_assembly_completed on_test_started
      on_test_failed on_test_passed on_heartbeat on_quality_disposition disposition
      on_rework_started on_rework_completed on_inspection_completed test_failure retry_branch
      hold_branch
  dispatch-IsNamed unit_admitted r next f = ground arith
  dispatch-IsNamed station_entered r next f = ground arith
  dispatch-IsNamed assembly_completed r next f = ground arith
  dispatch-IsNamed test_started r next f = ground arith
  dispatch-IsNamed test_passed r next f = ground arith
  dispatch-IsNamed test_failed r next f = ground arith
  dispatch-IsNamed heartbeat_received r next f = ground arith
  dispatch-IsNamed quality_disposition r next f = ground arith
  dispatch-IsNamed rework_started r next f = ground arith
  dispatch-IsNamed rework_completed r next f = ground arith
  dispatch-IsNamed inspection_completed r next f = ground arith
  dispatch-IsNamed operator_override r next f = tt
  dispatch-IsNamed (other x) r next f = tt

  apply_signal-IsNamed :
      (wf : UnitWorkflow) → IsNamed wf → NextIs IsNamed (apply_signal json policy wf s now)
  unfolding noted settle
  apply_signal-IsNamed =
      apply_signal-NextIs IsNamed IsNamed json policy s now
        (λ k f. rw (known_workflow_named k s now f) f) (λ k f. f)
        (λ k f. dispatch-IsNamed s.type (accepting k s now) (noted k s now) f)

  kept_state :
      (wf : UnitWorkflow) (t : State) (r : Result TransitionResult)
      → NextIs IsNamed r
      → AcceptedInto t r
      → IsNamed (kept wf r).0 × ((kept wf r).0.state ≡ t)
  unfolding kept
  kept_state wf t (ok r) f h = (f, h.1)
  kept_state wf t (err e) f h = absurd h

  -- a named unit that a signal may take to the state `t`
  pub signal_moves :
      (wf : UnitWorkflow) (t : State)
      → IsNamed wf
      → Advance json policy s wf.state (failures wf) t
      → let next = (step json policy wf (signalled s now)).0 in IsNamed next × (next.state ≡ t)
  unfolding step
  signal_moves wf t f a =
      kept_state wf t (apply_signal json policy wf s now) (apply_signal-IsNamed wf f) (
        (apply_signal-AcceptedInto_iff json policy s wf now t).0
          (rw (known_workflow_named wf s now f) a))
