-- ===== src/Workflow/RetryBudget.antt =====
-- How often the engine of internal/workflow/engine.go authorises a retry, under a policy that tries
-- a test again only after its first failure.
use forge_mini.Base.{
  ◌∙◌, ℕ, suc, ◌+◌, ◌<◌, ◌≤◌, ◌^◌, ◌≡◌, refl, ◌≢◌, inl, inr, ap, List, [], ◌∷◌, arith, str_eq, ◌==◌,
  if◌then◌else◌, Bool-cases,
}
use forge_mini.Base.Dict.{insert}
use forge_mini.Base.Errors.{Result-cases}
use forge_mini.Base.Machine.{Int64, Time, int_add}
use forge_mini.Signals.{
  SignalType, test_failed, quality_disposition, operator_override, other, OperationalSignal,
  TestFailedPayload, QualityDispositionPayload, Codec,
}
use forge_mini.Policy.{RetryPolicy}
use forge_mini.Workflow.State.{UnitWorkflow, attempt_at}
use forge_mini.Workflow.Decisions.{
  start_retry, WorkflowDecision, TimerPayload, TransitionResult, new_decision, transition_decision,
}
use forge_mini.Workflow.Cases.{
  disposition, on_unit_admitted, on_station_entered, on_assembly_completed, on_heartbeat,
  on_quality_disposition, on_rework_started, on_rework_completed, on_inspection_completed,
}
use forge_mini.Workflow.TestCases.{
  result_recorded, retry_branch, hold_branch, test_failure, on_test_started, on_test_failed,
  on_test_passed,
}
use forge_mini.Workflow.Engine.{
  settle, dispatch, accepting, noted, reject, apply_signal, ignore_timer, reopen, on_timeout,
  apply_timer,
}
use forge_mini.Workflow.Outcome.{On, On-map, ResultIs, apply_signal-ResultIs, apply_timer-cases}
use forge_mini.Workflow.PlainCases.{RetriesOnce, is_test_failed}
use forge_mini.Workflow.TimerInvariant.{
  known_workflow_named, failures-insert, int_add_one, retried_first,
}
use forge_mini.Workflow.Lifecycle.{failures}

-- the decisions that authorise a retry
abbrev pub retries : List WorkflowDecision → ℕ
retries [] = 0
retries (d ∷ ds) = elim d.decision_type [ start_retry ↦ suc (retries ds) | _ ↦ retries ds ]

-- 1 once a test has failed
abbrev pub spent : Int64 → ℕ
spent a = if a == 0 then 0 else 1

-- a case that neither counts a failure nor authorises a retry
abbrev Quiet : UnitWorkflow → UnitWorkflow → TransitionResult → Type 0
Quiet next n r =
    (n.attempt_count_by_station ≡ next.attempt_count_by_station) × (retries r.decisions ≡ 0)

module _ (json : Codec) (policy : RetryPolicy) (s : OperationalSignal) (now : Time) where
  disposition-Quiet :
      (wf next : UnitWorkflow) (p : QualityDispositionPayload)
      → On (Quiet next) (disposition (accepting wf s now) s now next p)
  unfolding disposition accepting new_decision transition_decision
  disposition-Quiet wf next p = elim (Bool-cases (str_eq p.action "route_to_rework")) [
    | inl q ↦ rw q (refl, refl)
    | inr q ↦ rw q (elim (Bool-cases (str_eq p.action "scrap")) [
      | inl x ↦ rw x (refl, refl)
      | inr x ↦ rw x tt
    ])
  ]

  dispatch-Quiet :
      (ty : SignalType) (wf next : UnitWorkflow)
      → ty ≢ test_failed
      → On (Quiet next) (dispatch json policy ty (accepting wf s now) s now next)
  unfolding dispatch accepting new_decision transition_decision result_recorded on_unit_admitted
      on_station_entered on_assembly_completed on_test_started on_test_passed on_heartbeat
      on_quality_disposition on_rework_started on_rework_completed on_inspection_completed
  dispatch-Quiet test_failed wf next ne = absurd (ne refl)
  dispatch-Quiet quality_disposition wf next ne =
      elim (Result-cases (json.unmarshal_quality_disposition s.payload)) [
        | inl (p, d) ↦ ground (arith, disposition-Quiet wf next p)
        | inr (x, d) ↦ ground arith
      ]
  dispatch-Quiet operator_override wf next ne = tt
  dispatch-Quiet (other x) wf next ne = tt
  dispatch-Quiet _ wf next ne = ground arith

-- what is spent before is spent after, and a retry spends what was left
abbrev pub Spends : Int64 → TransitionResult → Type 0
Spends a r = spent a + retries r.decisions ≤ spent (failures r.next_workflow)

module _ (json : Codec) (policy : RetryPolicy) (s : OperationalSignal) (now : Time) where
  test_failure-Spends :
      (wf next : UnitWorkflow) (p : TestFailedPayload)
      → RetriesOnce policy
      → suc (failures next) < 2 ^ 63
      → On
          (λ m r. spent (failures next) + retries r.decisions ≤ spent (failures m))
          (test_failure (accepting wf s now) s now policy next p)
  unfolding test_failure retry_branch hold_branch accepting result_recorded new_decision
      transition_decision
  test_failure-Spends wf next p once small =
      let a = failures next in
      let verdict = policy.evaluate p.failure_class a in
      let counts = insert "test" (int_add a 1) next.attempt_count_by_station in
      let count : attempt_at "test" counts ≡ suc a =
        failures-insert (int_add a 1) next.attempt_count_by_station
        ∙ int_add_one a a (omega arith) small in
      elim (Bool-cases verdict.retry_authorized) [
        | inl q ↦
            let first = retried_first policy p.failure_class a once (omega arith) q in
            rw (q, count, first) (omega arith)
        | inr q ↦ rw (q, count) (ground arith)
      ]

  dispatch-Spends :
      (wf next : UnitWorkflow)
      → RetriesOnce policy
      → suc (failures next) < 2 ^ 63
      → On
          (λ m r. spent (failures next) + retries r.decisions ≤ spent (failures m))
          (dispatch json policy s.type (accepting wf s now) s now next)
  unfolding dispatch on_test_failed
  dispatch-Spends wf next once small = elim (is_test_failed s.type) [
    | inl e ↦
        rw (e, dispatch)
          (elim (Result-cases (json.unmarshal_test_failed s.payload)) [
            | inl (p, d) ↦ ground (arith, test_failure-Spends wf next p once small)
            | inr (x, d) ↦ ground arith
          ])
    | inr ne ↦
        On-map (Quiet next)
          (λ m r. spent (failures next) + retries r.decisions ≤ spent (failures m)) _
          (λ m r quiet. rw (ap (attempt_at "test") quiet.0, quiet.1) (omega arith))
          (dispatch-Quiet json policy s now s.type wf next ne)
  ]

  -- A signal authorises a retry only on the first failure of a test, and counts it.
  pub apply_signal-Spends :
      (wf : UnitWorkflow)
      → RetriesOnce policy
      → wf.workflow_id ≢ ""
      → suc (failures wf) < 2 ^ 63
      → ResultIs (Spends (failures wf)) (apply_signal json policy wf s now)
  unfolding noted settle reject new_decision
  apply_signal-Spends wf once named small =
      apply_signal-ResultIs (λ k. k ≡ wf) (Spends (failures wf)) json policy s now
        (λ k e. rw e (known_workflow_named wf s now named))
        (λ k reason e. rw (e, known_workflow_named wf s now named) (omega arith))
        (λ k e. rw e (dispatch-Spends wf (noted wf s now) once small)) wf refl

-- A timer authorises no retry and counts no failure.
pub apply_timer-Spends :
    (wf : UnitWorkflow) (p : TimerPayload) (now : Time)
    → Spends (failures wf) (apply_timer wf p now)
unfolding ignore_timer reopen on_timeout new_decision transition_decision
apply_timer-Spends wf p now =
    apply_timer-cases (Spends (failures wf)) wf p now (λ reason summary. omega arith)
      (λ e waiting. omega arith) (λ h. omega arith)
