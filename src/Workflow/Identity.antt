-- ===== src/Workflow/Identity.antt =====
-- Whose the answers of internal/workflow/engine.go are: the snapshot and the decisions are filed under
-- the unit and the workflow of the snapshot before.
use forge_mini.Base.{
  String, concat, ◌≡◌, List, [], ◌∷◌, arith, Bool-cases, inl, inr, str_eq, eq_iff,
}
use forge_mini.Base.Errors.{Result-cases}
use forge_mini.Base.Machine.{Time}
use forge_mini.Signals.{
  SignalType, unit_admitted, station_entered, assembly_completed, test_started, test_passed,
  test_failed, heartbeat_received, quality_disposition, rework_started, rework_completed,
  inspection_completed, operator_override, other, OperationalSignal, TestFailedPayload,
  QualityDispositionPayload, Codec,
}
use forge_mini.Policy.{RetryPolicy}
use forge_mini.Workflow.State.{UnitWorkflow, attempt_at}
use forge_mini.Workflow.Decisions.{
  WorkflowDecision, TimerPayload, TransitionResult, new_decision, transition_decision,
}
use forge_mini.Workflow.Branch.{Branch}
use forge_mini.Workflow.Cases.{
  disposition, on_unit_admitted, on_station_entered, on_assembly_completed, on_heartbeat,
  on_quality_disposition, on_rework_started, on_rework_completed, on_inspection_completed,
}
use forge_mini.Workflow.TestCases.{
  retry_branch, hold_branch, test_failure, result_recorded, on_test_started, on_test_failed,
  on_test_passed,
}
use forge_mini.Workflow.Engine.{
  known_workflow, settle, reject, dispatch, accepting, noted, apply_signal, ignore_timer, reopen,
  on_timeout, apply_timer,
}
use forge_mini.Workflow.Keys.{prefix-ne-nil}
use forge_mini.Workflow.Outcome.{On, ResultIs, apply_signal-ResultIs, apply_timer-cases}

-- the snapshot is that of a unit, with the workflow identifier that `New` gives
abbrev pub IsOf : String → UnitWorkflow → Type 0
IsOf unit wf = (wf.unit_id ≡ unit) × (wf.workflow_id ≡ concat "wf-" unit)

-- every decision is filed under a workflow
abbrev pub FiledUnder : String → List WorkflowDecision → Type 0
FiledUnder workflow [] = Unit
FiledUnder workflow (d ∷ ds) = (d.workflow_id ≡ workflow) × FiledUnder workflow ds

abbrev pub AnswersFor : String → TransitionResult → Type 0
AnswersFor unit r = IsOf unit r.next_workflow × FiledUnder (concat "wf-" unit) r.decisions

known-IsOf :
    (unit : String) (wf : UnitWorkflow) (s : OperationalSignal) (now : Time)
    → IsOf unit wf
    → IsOf unit (known_workflow wf s now)
unfolding known_workflow
known-IsOf unit wf s now (u, n) = elim (Bool-cases (str_eq wf.workflow_id "")) [
  | inl q ↦ absurd (prefix-ne-nil unit (ground (arith, eq_iff wf.workflow_id "")))
  | inr q ↦ rw q (u, n)
]

module _ (json : Codec) (policy : RetryPolicy) (unit : String) (s : OperationalSignal) (now : Time)
    (k : UnitWorkflow) (own : IsOf unit k) where
  abbrev Files : Branch → Type 0
  Files = On (λ n r. IsOf unit n × FiledUnder (concat "wf-" unit) r.decisions)

  test_failure-Files :
      (next : UnitWorkflow) (p : TestFailedPayload)
      → IsOf unit next
      → Files (test_failure (accepting k s now) s now policy next p)
  unfolding test_failure retry_branch hold_branch accepting new_decision transition_decision
      result_recorded
  test_failure-Files next p h =
      elim (Bool-cases
        (policy.evaluate p.failure_class
          (attempt_at "test" next.attempt_count_by_station)).retry_authorized) [
            | inl q ↦ rw q (ground arith)
            | inr q ↦ rw q (ground arith)
          ]

  disposition-Files :
      (next : UnitWorkflow) (p : QualityDispositionPayload)
      → IsOf unit next
      → Files (disposition (accepting k s now) s now next p)
  unfolding disposition accepting new_decision transition_decision
  disposition-Files next p h = elim (Bool-cases (str_eq p.action "route_to_rework")) [
    | inl q ↦ rw q (ground arith)
    | inr q ↦ rw q (elim (Bool-cases (str_eq p.action "scrap")) [
      | inl x ↦ rw x (ground arith)
      | inr x ↦ rw x tt
    ])
  ]

  dispatch-Files :
      (ty : SignalType) (next : UnitWorkflow)
      → IsOf unit next
      → Files (dispatch json policy ty (accepting k s now) s now next)
  unfolding dispatch on_unit_admitted on_station_entered on_assembly_completed on_test_started
      on_test_failed on_test_passed on_heartbeat on_quality_disposition result_recorded
      on_rework_started on_rework_completed on_inspection_completed accepting new_decision
      transition_decision
  dispatch-Files unit_admitted next h = ground arith
  dispatch-Files station_entered next h = ground arith
  dispatch-Files assembly_completed next h = ground arith
  dispatch-Files test_started next h = ground arith
  dispatch-Files test_passed next h = ground arith
  dispatch-Files test_failed next h = elim (Result-cases (json.unmarshal_test_failed s.payload)) [
    | inl (p, d) ↦ ground (arith, test_failure-Files next p)
    | inr (x, d) ↦ ground arith
  ]
  dispatch-Files heartbeat_received next h = ground arith
  dispatch-Files quality_disposition next h =
      elim (Result-cases (json.unmarshal_quality_disposition s.payload)) [
        | inl (p, d) ↦ ground (arith, disposition-Files next p)
        | inr (x, d) ↦ ground arith
      ]
  dispatch-Files rework_started next h = ground arith
  dispatch-Files rework_completed next h = ground arith
  dispatch-Files inspection_completed next h = ground arith
  dispatch-Files operator_override next h = tt
  dispatch-Files (other x) next h = tt

-- The answer to any signal is filed under the unit and the workflow of the snapshot before.
pub apply_signal-AnswersFor :
    (json : Codec) (policy : RetryPolicy) (unit : String) (s : OperationalSignal) (now : Time)
    (wf : UnitWorkflow)
    → IsOf unit wf
    → ResultIs (AnswersFor unit) (apply_signal json policy wf s now)
unfolding reject new_decision noted settle
apply_signal-AnswersFor json policy unit s now =
    apply_signal-ResultIs (IsOf unit) (AnswersFor unit) json policy s now
      (λ k h. known-IsOf unit k s now h)
      (λ k reason h. let h' = known-IsOf unit k s now h in (h', (h'.1, tt)))
      (λ k h. dispatch-Files json policy unit s now k h s.type (noted k s now) h)

-- So is the answer to any timer.
pub apply_timer-AnswersFor :
    (unit : String) (wf : UnitWorkflow) (p : TimerPayload) (now : Time)
    → IsOf unit wf
    → AnswersFor unit (apply_timer wf p now)
unfolding ignore_timer reopen on_timeout new_decision transition_decision
apply_timer-AnswersFor unit wf p now h =
    apply_timer-cases (AnswersFor unit) wf p now (λ reason summary. (h, (h.1, tt)))
      (λ e st. ground arith) (λ e. ground arith)
