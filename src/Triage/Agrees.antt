-- ===== src/Triage/Agrees.antt =====
-- The recommendations of internal/triage/service.go and those that the engine gives with the
-- incidents it opens.
use forge_mini.Base.{◌≡◌, refl, String, arith, Bool-cases, inl, inr}
use forge_mini.Base.Errors.{Result-cases}
use forge_mini.Base.Machine.{Time}
use forge_mini.Signals.{
  SignalType, unit_admitted, station_entered, assembly_completed, test_started, test_passed,
  test_failed, heartbeat_received, quality_disposition, rework_started, rework_completed,
  inspection_completed, operator_override, other, OperationalSignal, TestFailedPayload, Codec,
}
use forge_mini.Policy.{RetryPolicy}
use forge_mini.Incidents.{Incident}
use forge_mini.Workflow.State.{UnitWorkflow, attempt_at}
use forge_mini.Workflow.Decisions.{
  IncidentActionType, upsert, IncidentAction, no_action, TimerPayload, TransitionResult,
}
use forge_mini.Workflow.Cases.{
  disposition, on_unit_admitted, on_station_entered, on_assembly_completed, on_heartbeat,
  on_quality_disposition, on_rework_started, on_rework_completed, on_inspection_completed,
}
use forge_mini.Workflow.TestCases.{
  retry_branch, hold_branch, test_failure, on_test_started, on_test_failed, on_test_passed,
}
use forge_mini.Workflow.Engine.{
  reject, dispatch, accepting, noted, apply_signal, ignore_timer, reopen, on_timeout, apply_timer,
}
use forge_mini.Workflow.Outcome.{On, ResultIs, apply_signal-ResultIs, apply_timer-cases}
use forge_mini.Triage.{summarize_incident}

-- what triage recommends for an incident of the category
abbrev pub recommended : Incident → String → String
recommended incident category =
    (summarize_incident (record incident { category = category })).recommended_action

-- Where an incident is opened or updated, triage recommends what the engine recommends.
abbrev pub Agrees : IncidentActionType → IncidentAction → Type 0
Agrees upsert action =
    (incident : Incident) → recommended incident action.category ≡ action.recommended_action
Agrees _ action = Unit

abbrev pub IsAgreed : TransitionResult → Type 0
IsAgreed r = Agrees r.incident_action.type r.incident_action

module _ (json : Codec) (policy : RetryPolicy) (s : OperationalSignal) (now : Time) where
  test_failure-IsAgreed :
      (r : TransitionResult) (next : UnitWorkflow) (p : TestFailedPayload)
      → On (λ n r. IsAgreed r) (test_failure r s now policy next p)
  unfolding test_failure retry_branch hold_branch summarize_incident
  test_failure-IsAgreed r next p =
      elim (Bool-cases
        (policy.evaluate p.failure_class
          (attempt_at "test" next.attempt_count_by_station)).retry_authorized) [
            | inl q ↦ rw q (λ i. refl)
            | inr q ↦ rw q (λ i. refl)
          ]

  dispatch-IsAgreed :
      (ty : SignalType) (r : TransitionResult) (next : UnitWorkflow)
      → r.incident_action ≡ no_action
      → On (λ n r. IsAgreed r) (dispatch json policy ty r s now next)
  unfolding dispatch on_unit_admitted on_station_entered on_assembly_completed on_test_started
      on_test_failed on_test_passed on_heartbeat on_quality_disposition disposition
      on_rework_started on_rework_completed on_inspection_completed
  dispatch-IsAgreed unit_admitted r next e = ground arith
  dispatch-IsAgreed station_entered r next e = ground arith
  dispatch-IsAgreed assembly_completed r next e = ground arith
  dispatch-IsAgreed test_started r next e = ground arith
  dispatch-IsAgreed test_passed r next e = ground arith
  dispatch-IsAgreed test_failed r next e =
      elim (Result-cases (json.unmarshal_test_failed s.payload)) [
        | inl (p, d) ↦ ground (arith, test_failure-IsAgreed r next p)
        | inr (x, d) ↦ ground arith
      ]
  dispatch-IsAgreed heartbeat_received r next e = ground arith
  dispatch-IsAgreed quality_disposition r next e = ground arith
  dispatch-IsAgreed rework_started r next e = ground arith
  dispatch-IsAgreed rework_completed r next e = ground arith
  dispatch-IsAgreed inspection_completed r next e = ground arith
  dispatch-IsAgreed operator_override r next e = tt
  dispatch-IsAgreed (other x) r next e = tt

-- Whatever the engine answers to a signal, where it opens or updates an incident, the triage of an
-- incident of that category recommends what the engine's answer recommends.
pub apply_signal-IsAgreed :
    (json : Codec) (policy : RetryPolicy) (wf : UnitWorkflow) (s : OperationalSignal) (now : Time)
    → ResultIs IsAgreed (apply_signal json policy wf s now)
unfolding reject accepting
apply_signal-IsAgreed json policy wf s now =
    apply_signal-ResultIs (λ wf. Unit) IsAgreed json policy s now (λ k u. u) (λ k reason u. tt)
      (λ k u. dispatch-IsAgreed json policy s now s.type (accepting k s now) (noted k s now) refl)
      wf tt

-- Whatever the engine answers to a timer, where it opens or updates an incident, the triage of an
-- incident of that category recommends what the engine's answer recommends.
pub apply_timer-IsAgreed :
    (wf : UnitWorkflow) (p : TimerPayload) (now : Time) → IsAgreed (apply_timer wf p now)
unfolding ignore_timer reopen on_timeout summarize_incident
apply_timer-IsAgreed wf p now =
    apply_timer-cases IsAgreed wf p now (λ reason summary. tt) (λ e st. tt) (λ h i. refl)
