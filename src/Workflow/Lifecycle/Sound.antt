-- ===== src/Workflow/Lifecycle/Sound.antt =====
-- `Engine.ApplySignal` of internal/workflow/engine.go moves a unit only along the relation.
use forge_mini.Base.{
  Bool-cases, String, true, ◌≡◌, refl, ◌⊎◌, inl, inr, List, [], ◌∷◌, ◌++◌, eq_iff, arith,
}
use forge_mini.Base.Errors.{Result, ok, err, Result-cases}
use forge_mini.Base.Machine.{Time}
use forge_mini.Signals.{
  SignalType, unit_admitted, station_entered, assembly_completed, test_started, test_passed,
  test_failed, heartbeat_received, quality_disposition, rework_started, rework_completed,
  inspection_completed, operator_override, other, OperationalSignal, TestFailedPayload,
  QualityDispositionPayload, Codec,
}
use forge_mini.Policy.{RetryPolicy}
use forge_mini.Workflow.State.{awaiting_test_result, on_hold, UnitWorkflow, attempt_at}
use forge_mini.Workflow.Decisions.{WorkflowDecision, TransitionResult}
use forge_mini.Workflow.Cases.{disposition}
use forge_mini.Workflow.Branch.{Branch, reject_with, fail_with, proceed}
use forge_mini.Workflow.Cases.{
  disposition, on_unit_admitted, on_station_entered, on_assembly_completed, on_heartbeat,
  on_quality_disposition, on_rework_started, on_rework_completed, on_inspection_completed,
}
use forge_mini.Workflow.TestCases.{
  retry_branch, hold_branch, test_failure, on_test_started, on_test_failed, on_test_passed,
}
use forge_mini.Workflow.Engine.{
  known_workflow, dispatch, apply_signal, conclude, accepting, noted, reject,
}
use forge_mini.Workflow.Lifecycle.{
  accepts, Advance, admit, enter_assembly, finish_assembly, start_test, pass_test, retry_test,
  hold_after_test, beat, send_to_rework, scrap, start_rework, finish_rework, enter_inspection,
  finish_inspection, failures, Undecodable, bad_failure, bad_disposition,
}

pub accepts-append : (ds es : List WorkflowDecision) → accepts ds ≡ true → accepts (ds ++ es) ≡ true
accepts-append [] es h = cc
accepts-append (d ∷ ds) es h = h

module _ (json : Codec) (policy : RetryPolicy) (s : OperationalSignal) where
  -- a case of the `switch` goes on only along the relation
  abbrev Sound : UnitWorkflow → Branch → Type 0
  Sound next (reject_with reason) = Unit
  Sound next (fail_with e) = Undecodable json s next.state e
  Sound next (proceed n r) =
      (accepts r.decisions ≡ true) × Advance json policy s next.state (failures next) n.state

  test_failure-Sound :
      (r : TransitionResult) (now : Time) (next : UnitWorkflow) (p : TestFailedPayload)
      → s.type ≡ test_failed
      → next.state ≡ awaiting_test_result
      → json.unmarshal_test_failed s.payload ≡ ok p
      → accepts r.decisions ≡ true
      → Sound next (test_failure r s now policy next p)
  unfolding test_failure retry_branch hold_branch attempt_at
  test_failure-Sound r now next p e st d a =
      elim (Bool-cases (policy.evaluate p.failure_class (failures next)).retry_authorized) [
        | inl q ↦ rw q (accepts-append _ _ (accepts-append _ _ a), retry_test p e st d q)
        | inr q ↦ rw q (accepts-append _ _ (accepts-append _ _ a), hold_after_test p e st d q)
      ]

  disposition-Sound :
      (r : TransitionResult) (now : Time) (next : UnitWorkflow) (p : QualityDispositionPayload)
      → s.type ≡ quality_disposition
      → next.state ≡ on_hold
      → json.unmarshal_quality_disposition s.payload ≡ ok p
      → accepts r.decisions ≡ true
      → Sound next (disposition r s now next p)
  unfolding disposition
  disposition-Sound r now next p e st d a = grind (
    arith,
    accepts-append,
    send_to_rework p,
    scrap p,
    eq_iff p.action "route_to_rework",
    eq_iff p.action "scrap",
  )

  dispatch-Sound :
      (ty : SignalType) (r : TransitionResult) (now : Time) (next : UnitWorkflow)
      → s.type ≡ ty
      → accepts r.decisions ≡ true
      → Sound next (dispatch json policy ty r s now next)
  unfolding dispatch on_unit_admitted on_station_entered on_assembly_completed on_test_started
      on_test_failed on_test_passed on_heartbeat on_quality_disposition on_rework_started
      on_rework_completed on_inspection_completed
  dispatch-Sound unit_admitted r now next e a = grind (arith, accepts-append, admit)
  dispatch-Sound station_entered r now next e a =
      grind
        (arith, accepts-append, enter_assembly, enter_inspection, eq_iff s.station_id "inspection")
  dispatch-Sound assembly_completed r now next e a = grind (arith, accepts-append, finish_assembly)
  dispatch-Sound test_started r now next e a = grind (arith, accepts-append, start_test)
  dispatch-Sound test_passed r now next e a = grind (arith, accepts-append, pass_test)
  dispatch-Sound test_failed r now next e a =
      elim (Result-cases (json.unmarshal_test_failed s.payload)) [
        | inl (p, d) ↦ ground (arith, test_failure-Sound r now next p)
        | inr (x, d) ↦ grind (arith, bad_failure, bad_disposition)
      ]
  dispatch-Sound heartbeat_received r now next e a = grind (arith, accepts-append, beat)
  dispatch-Sound quality_disposition r now next e a =
      elim (Result-cases (json.unmarshal_quality_disposition s.payload)) [
        | inl (p, d) ↦ grind (arith, disposition-Sound r now next p)
        | inr (x, d) ↦ grind (arith, bad_failure, bad_disposition)
      ]
  dispatch-Sound rework_started r now next e a = grind (arith, accepts-append, start_rework)
  dispatch-Sound rework_completed r now next e a = grind (arith, accepts-append, finish_rework)
  dispatch-Sound inspection_completed r now next e a =
      grind (arith, accepts-append, finish_inspection)
  dispatch-Sound operator_override r now next e a = tt
  dispatch-Sound (other x) r now next e a = tt

  -- what the engine answers on a signal, on every branch
  abbrev pub Answers : UnitWorkflow → Time → Result TransitionResult → Type 0
  Answers wf now (err e) = Undecodable json s wf.state e
  Answers wf now (ok r) =
      ((accepts r.decisions ≡ true)
        × Advance json policy s wf.state (failures wf) r.next_workflow.state)
      ⊎ ((reason : String) × (r ≡ reject wf s now reason))

  conclude-Answers :
      (wf next : UnitWorkflow) (now : Time) (b : Branch)
      → next.state ≡ wf.state
      → failures next ≡ failures wf
      → Sound next b
      → Answers wf now (conclude wf s now b)
  unfolding conclude
  conclude-Answers wf next now (reject_with reason) e f h = inr (reason, refl)
  conclude-Answers wf next now (fail_with x) e f h = rw (← e) h
  conclude-Answers wf next now (proceed n r) e f h = inl (h.0, rw (← e, ← f) h.1)

  pub apply_signal-Answers :
      (wf : UnitWorkflow) (now : Time)
      → Answers (known_workflow wf s now) now (apply_signal json policy wf s now)
  unfolding apply_signal
  apply_signal-Answers wf now =
      let k = known_workflow wf s now in
      conclude-Answers k (noted k s now) now _ refl refl
        (dispatch-Sound s.type (accepting k s now) now (noted k s now) refl refl)
