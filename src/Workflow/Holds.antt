-- ===== src/Workflow/Holds.antt =====
-- Where a unit stands and why it is held: what the fields of a snapshot say together.
use forge_mini.Base.{str_eq, ◌≡◌, refl, ◌≢◌, ◌⊎◌, inl, inr, String, arith, eq_iff, Bool-cases}
use forge_mini.Base.Errors.{Result-cases}
use forge_mini.Base.Machine.{Int64, Time}
use forge_mini.Signals.{
  SignalType, unit_admitted, station_entered, assembly_completed, test_started, test_passed,
  test_failed, heartbeat_received, quality_disposition, rework_started, rework_completed,
  inspection_completed, operator_override, other, OperationalSignal, TestFailedPayload,
  QualityDispositionPayload, Codec,
}
use forge_mini.Policy.{RetryPolicy}
use forge_mini.Workflow.State.{
  State, pending, ready_for_assembly, ready_for_test, awaiting_test_result, retry_pending, on_hold,
  in_rework, ready_for_inspection, in_inspection, completed, heartbeat_timeout, test_result_timeout,
  UnitWorkflow, timer_text, attempt_at,
}
use forge_mini.Workflow.Decisions.{TimerPayload, TransitionResult}
use forge_mini.Workflow.Branch.{Branch}
use forge_mini.Workflow.Cases.{
  disposition, on_unit_admitted, on_station_entered, on_assembly_completed, on_heartbeat,
  on_quality_disposition, on_rework_started, on_rework_completed, on_inspection_completed,
}
use forge_mini.Workflow.TestCases.{
  retry_branch, hold_branch, test_failure, on_test_started, on_test_failed, on_test_passed,
}
use forge_mini.Workflow.Outcome.{On, NextIs, apply_signal-NextIs, apply_timer-cases}
use forge_mini.Workflow.Engine.{
  settle, known_workflow, dispatch, accepting, noted, apply_signal, ignore_timer, reopen,
  on_timeout, apply_timer,
}

-- The station that a state fixes; the others leave it open.
abbrev pub StationFits : State → String → Type 0
StationFits pending station = station ≡ ""
StationFits ready_for_assembly station = station ≡ ""
StationFits ready_for_test station = station ≡ "test"
StationFits awaiting_test_result station = station ≡ "test"
StationFits retry_pending station = station ≡ "test"
StationFits in_rework station = station ≡ "rework"
StationFits ready_for_inspection station = station ≡ "test"
StationFits in_inspection station = station ≡ "inspection"
StationFits completed station = station ≡ ""
StationFits _ station = Unit

-- A unit has a hold reason if and only if it is on hold.
abbrev pub ReasonFits : State → String → Type 0
ReasonFits on_hold reason = reason ≢ ""
ReasonFits _ reason = reason ≡ ""

abbrev pub Fits : State → String → String → Type 0
Fits state station reason = StationFits state station × ReasonFits state reason

abbrev pub FitsIn : UnitWorkflow → Type 0
FitsIn wf = Fits wf.state wf.current_station_id wf.active_hold_reason

-- a policy that gives a reason for each verdict
abbrev pub GivesReasons : RetryPolicy → Type 0
GivesReasons policy = (c : String) (n : Int64) → (policy.evaluate c n).reason_code ≢ ""

known-FitsIn :
    (wf : UnitWorkflow) (s : OperationalSignal) (now : Time)
    → FitsIn wf
    → FitsIn (known_workflow wf s now)
unfolding known_workflow
known-FitsIn wf s now f = elim (Bool-cases (str_eq wf.workflow_id "")) [
  | inl q ↦ rw q (refl, refl)
  | inr q ↦ rw q f
]

module _ (json : Codec) (policy : RetryPolicy) (s : OperationalSignal) (now : Time) where
  abbrev Keeps : Branch → Type 0
  Keeps = On (λ n r. FitsIn n)

  test_failure-Keeps :
      (r : TransitionResult) (next : UnitWorkflow) (p : TestFailedPayload)
      → GivesReasons policy
      → next.state ≡ awaiting_test_result
      → FitsIn next
      → Keeps (test_failure r s now policy next p)
  unfolding test_failure retry_branch hold_branch
  test_failure-Keeps r next p g st f =
      elim (Bool-cases
        (policy.evaluate p.failure_class
          (attempt_at "test" next.attempt_count_by_station)).retry_authorized) [
            | inl q ↦ rw q (ground arith)
            | inr q ↦ rw q (tt, g _ _)
          ]

  disposition-Keeps :
      (r : TransitionResult) (next : UnitWorkflow) (p : QualityDispositionPayload)
      → Keeps (disposition r s now next p)
  unfolding disposition
  disposition-Keeps r next p = elim (Bool-cases (str_eq p.action "route_to_rework")) [
    | inl q ↦ rw q (tt, refl)
    | inr q ↦
        rw q (elim (Bool-cases (str_eq p.action "scrap")) [
          | inl x ↦ rw x (tt, refl)
          | inr x ↦ rw x tt
        ])
  ]

  dispatch-Keeps :
      (ty : SignalType) (r : TransitionResult) (next : UnitWorkflow)
      → GivesReasons policy
      → FitsIn next
      → Keeps (dispatch json policy ty r s now next)
  unfolding dispatch on_unit_admitted on_station_entered on_assembly_completed on_test_started
      on_test_failed on_test_passed on_heartbeat on_quality_disposition disposition
      on_rework_started on_rework_completed on_inspection_completed
  dispatch-Keeps unit_admitted r next g f = ground arith
  dispatch-Keeps station_entered r next g f = ground (arith, eq_iff s.station_id "inspection")
  dispatch-Keeps assembly_completed r next g f = ground arith
  dispatch-Keeps test_started r next g f = ground arith
  dispatch-Keeps test_passed r next g f = ground arith
  dispatch-Keeps test_failed r next g f =
      elim (Result-cases (json.unmarshal_test_failed s.payload)) [
        | inl (p, d) ↦ ground (arith, test_failure-Keeps r next p)
        | inr (x, d) ↦ ground arith
      ]
  dispatch-Keeps heartbeat_received r next g f = ground arith
  dispatch-Keeps quality_disposition r next g f =
      elim (Result-cases (json.unmarshal_quality_disposition s.payload)) [
        | inl (p, d) ↦ ground (arith, disposition-Keeps r next p)
        | inr (x, d) ↦ ground arith
      ]
  dispatch-Keeps rework_started r next g f = ground arith
  dispatch-Keeps rework_completed r next g f = ground arith
  dispatch-Keeps inspection_completed r next g f = ground arith
  dispatch-Keeps operator_override r next g f = tt
  dispatch-Keeps (other x) r next g f = tt

-- Under a policy that gives a reason with every verdict, the answer to any signal has a snapshot
-- whose station and hold reason fit its state, if those of the snapshot before did: a unit has a hold
-- reason if and only if it is on hold.
pub apply_signal-FitsIn :
    (json : Codec) (policy : RetryPolicy) (wf : UnitWorkflow) (s : OperationalSignal) (now : Time)
    → GivesReasons policy
    → FitsIn wf
    → NextIs FitsIn (apply_signal json policy wf s now)
unfolding noted settle
apply_signal-FitsIn json policy wf s now g =
    apply_signal-NextIs FitsIn FitsIn json policy s now (λ k f. known-FitsIn k s now f) (λ k f. f)
      (λ k f. dispatch-Keeps json policy s now s.type (accepting k s now) (noted k s now) g f) wf

-- a timer that fires has a name
timer-ne-nil :
    (p : TimerPayload)
    → (p.timer_type ≡ heartbeat_timeout) ⊎ (p.timer_type ≡ test_result_timeout)
    → timer_text p.timer_type ≢ ""
unfolding timer_text
timer-ne-nil p (inl e) = rw e (ground (arith, eq_iff "station_heartbeat_timeout" ""))
timer-ne-nil p (inr e) = rw e (ground (arith, eq_iff "test_result_timeout" ""))

-- The answer to any timer has a snapshot whose station and hold reason fit its state, if those of the
-- snapshot before did.
pub apply_timer-FitsIn :
    (wf : UnitWorkflow) (p : TimerPayload) (now : Time)
    → FitsIn wf
    → FitsIn (apply_timer wf p now).next_workflow
unfolding ignore_timer reopen on_timeout
apply_timer-FitsIn wf p now f =
    apply_timer-cases (λ r. FitsIn r.next_workflow) wf p now (λ reason summary. f)
      (λ e st. ground arith) (λ h. (tt, timer-ne-nil p h))
