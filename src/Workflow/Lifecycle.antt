-- ===== src/Workflow/Lifecycle.antt =====
-- The life of a unit as a relation: the transitions of SPEC.md ("Allowed High-Level Transitions") that
-- a signal can make in internal/workflow/engine.go, each with its conditions on the signal, and the
-- heartbeat, which leaves the state as it is.
pub mod Sound
pub mod Complete
pub mod Refusals
use forge_mini.Base.{Bool, true, false, ◌≡◌, List, [], ◌∷◌}
use forge_mini.Base.Errors.{
  Error, decode_test_failure_payload, decode_quality_disposition_payload, Result, ok, err,
}
use forge_mini.Base.Machine.{Int64}
use forge_mini.Signals.{
  unit_admitted, station_entered, assembly_completed, test_started, test_passed, test_failed,
  heartbeat_received, quality_disposition, rework_started, rework_completed, inspection_completed,
  OperationalSignal, TestFailedPayload, QualityDispositionPayload, Codec,
}
use forge_mini.Policy.{RetryPolicy}
use forge_mini.Workflow.State.{
  State, pending, ready_for_assembly, in_assembly, ready_for_test, awaiting_test_result,
  retry_pending, on_hold, awaiting_rework, in_rework, ready_for_inspection, in_inspection,
  completed, scrapped, UnitWorkflow, attempt_at,
}
use forge_mini.Workflow.Decisions.{accept_signal, WorkflowDecision, TransitionResult}
use forge_mini.Workflow.Cases.{is_active}

-- the first decision accepts the signal
abbrev pub accepts : List WorkflowDecision → Bool
accepts [] = false
accepts (d ∷ ds) = elim d.decision_type [ accept_signal ↦ true | _ ↦ false ]

-- What a unit in the state `from`, whose test has failed `attempts` times, may do on a signal.
pub data Advance (json : Codec) (policy : RetryPolicy) (s : OperationalSignal) (from : State)
    (attempts : Int64) : State → Type 0 where
  admit :
      s.type ≡ unit_admitted
      → from ≡ pending
      → Advance json policy s from attempts ready_for_assembly
  enter_assembly :
      s.type ≡ station_entered
      → from ≡ ready_for_assembly
      → Advance json policy s from attempts in_assembly
  finish_assembly :
      s.type ≡ assembly_completed
      → from ≡ in_assembly
      → Advance json policy s from attempts ready_for_test
  start_test :
      s.type ≡ test_started
      → from ≡ ready_for_test
      → Advance json policy s from attempts awaiting_test_result
  pass_test :
      s.type ≡ test_passed
      → from ≡ awaiting_test_result
      → Advance json policy s from attempts ready_for_inspection
  retry_test :
      (p : TestFailedPayload)
      → s.type ≡ test_failed
      → from ≡ awaiting_test_result
      → json.unmarshal_test_failed s.payload ≡ ok p
      → (policy.evaluate p.failure_class attempts).retry_authorized ≡ true
      → Advance json policy s from attempts retry_pending
  hold_after_test :
      (p : TestFailedPayload)
      → s.type ≡ test_failed
      → from ≡ awaiting_test_result
      → json.unmarshal_test_failed s.payload ≡ ok p
      → (policy.evaluate p.failure_class attempts).retry_authorized ≡ false
      → Advance json policy s from attempts on_hold
  beat :
      s.type ≡ heartbeat_received → is_active from ≡ true → Advance json policy s from attempts from
  send_to_rework :
      (p : QualityDispositionPayload)
      → s.type ≡ quality_disposition
      → from ≡ on_hold
      → json.unmarshal_quality_disposition s.payload ≡ ok p
      → p.action ≡ "route_to_rework"
      → Advance json policy s from attempts awaiting_rework
  scrap :
      (p : QualityDispositionPayload)
      → s.type ≡ quality_disposition
      → from ≡ on_hold
      → json.unmarshal_quality_disposition s.payload ≡ ok p
      → p.action ≡ "scrap"
      → Advance json policy s from attempts scrapped
  start_rework :
      s.type ≡ rework_started
      → from ≡ awaiting_rework
      → Advance json policy s from attempts in_rework
  finish_rework :
      s.type ≡ rework_completed
      → from ≡ in_rework
      → Advance json policy s from attempts ready_for_test
  enter_inspection :
      s.type ≡ station_entered
      → from ≡ ready_for_inspection
      → s.station_id ≡ "inspection"
      → Advance json policy s from attempts in_inspection
  finish_inspection :
      s.type ≡ inspection_completed
      → from ≡ in_inspection
      → Advance json policy s from attempts completed

-- the count of failures that the engine asks the policy about
abbrev pub failures : UnitWorkflow → Int64
failures wf = attempt_at "test" wf.attempt_count_by_station

-- The engine took the signal and left the unit in the state `t`.
abbrev pub AcceptedInto : State → Result TransitionResult → Type 0
AcceptedInto t (ok r) = (accepts r.decisions ≡ true) × (r.next_workflow.state ≡ t)
AcceptedInto t (err e) = ⊥

-- The signal reached a case that decodes its payload, and the payload does not decode.
pub data Undecodable (json : Codec) (s : OperationalSignal) (from : State) : Error → Type 0 where
  bad_failure :
      {e : Error}
      → s.type ≡ test_failed
      → from ≡ awaiting_test_result
      → json.unmarshal_test_failed s.payload ≡ err e
      → Undecodable json s from (decode_test_failure_payload e)
  bad_disposition :
      {e : Error}
      → s.type ≡ quality_disposition
      → from ≡ on_hold
      → json.unmarshal_quality_disposition s.payload ≡ err e
      → Undecodable json s from (decode_quality_disposition_payload e)
