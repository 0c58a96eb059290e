-- ===== src/Workflow/Lifecycle/Complete.antt =====
-- `Engine.ApplySignal` of internal/workflow/engine.go follows every step of the relation.
use forge_mini.Base.{◌↔◌, if◌then◌else◌, Bool-cases, true, ◌≡◌, refl, inl, inr, eq_iff, arith}
use forge_mini.Base.Errors.{Result, ok, err}
use forge_mini.Base.Machine.{Time}
use forge_mini.Signals.{OperationalSignal, TestFailedPayload, QualityDispositionPayload, Codec}
use forge_mini.Policy.{RetryPolicy}
use forge_mini.Workflow.State.{
  State, retry_pending, on_hold, awaiting_rework, scrapped, UnitWorkflow, attempt_at,
}
use forge_mini.Workflow.Decisions.{TransitionResult}
use forge_mini.Workflow.Cases.{disposition}
use forge_mini.Workflow.Branch.{Branch, reject_with, fail_with, proceed}
use forge_mini.Workflow.Cases.{
  disposition, on_unit_admitted, on_station_entered, on_assembly_completed, on_heartbeat,
  on_quality_disposition, on_rework_started, on_rework_completed, on_inspection_completed,
}
use forge_mini.Workflow.TestCases.{
  retry_branch, hold_branch, test_failure, on_test_started, on_test_failed, on_test_passed,
}
use forge_mini.Workflow.Engine.{
  known_workflow, dispatch, apply_signal, conclude, accepting, noted, reject,
}
use forge_mini.Workflow.Lifecycle.{
  accepts, Advance, admit, enter_assembly, finish_assembly, start_test, pass_test, retry_test,
  hold_after_test, beat, send_to_rework, scrap, start_rework, finish_rework, enter_inspection,
  finish_inspection, failures, AcceptedInto,
}
use forge_mini.Workflow.Lifecycle.Sound.{accepts-append, Answers, apply_signal-Answers}

module _ (json : Codec) (policy : RetryPolicy) (s : OperationalSignal) where
  -- a case of the `switch` that goes on into the state `t`
  abbrev GoesInto : State → Branch → Type 0
  GoesInto t (reject_with reason) = ⊥
  GoesInto t (fail_with e) = ⊥
  GoesInto t (proceed n r) = (accepts r.decisions ≡ true) × (n.state ≡ t)

  test_failure-GoesInto :
      (r : TransitionResult) (now : Time) (next : UnitWorkflow) (p : TestFailedPayload)
      → accepts r.decisions ≡ true
      → let verdict = policy.evaluate p.failure_class (failures next) in
        GoesInto
          (if verdict.retry_authorized then retry_pending else on_hold)
          (test_failure r s now policy next p)
  unfolding test_failure retry_branch hold_branch attempt_at
  test_failure-GoesInto r now next p a =
      elim (Bool-cases (policy.evaluate p.failure_class (failures next)).retry_authorized) [
        | inl q ↦ rw q (accepts-append _ _ (accepts-append _ _ a), refl)
        | inr q ↦ rw q (accepts-append _ _ (accepts-append _ _ a), refl)
      ]

  disposition_rework :
      (r : TransitionResult) (now : Time) (next : UnitWorkflow) (p : QualityDispositionPayload)
      → accepts r.decisions ≡ true
      → p.action ≡ "route_to_rework"
      → GoesInto awaiting_rework (disposition r s now next p)
  unfolding disposition
  disposition_rework r now next p a q = simp q (accepts-append _ _ a, refl)

  disposition_scrap :
      (r : TransitionResult) (now : Time) (next : UnitWorkflow) (p : QualityDispositionPayload)
      → accepts r.decisions ≡ true
      → p.action ≡ "scrap"
      → GoesInto scrapped (disposition r s now next p)
  unfolding disposition
  disposition_scrap r now next p a q = simp q (accepts-append _ _ a, refl)

  dispatch-GoesInto :
      (r : TransitionResult) (now : Time) (next : UnitWorkflow) {t : State}
      → accepts r.decisions ≡ true
      → Advance json policy s next.state (failures next) t
      → GoesInto t (dispatch json policy s.type r s now next)
  unfolding dispatch on_unit_admitted on_station_entered on_assembly_completed on_test_started
      on_test_failed on_test_passed on_heartbeat on_quality_disposition disposition
      on_rework_started on_rework_completed on_inspection_completed
  dispatch-GoesInto r now next a (admit e h) = simp e (grind (arith, accepts-append))
  dispatch-GoesInto r now next a (enter_assembly e h) = simp e (grind (arith, accepts-append))
  dispatch-GoesInto r now next a (finish_assembly e h) = simp e (grind (arith, accepts-append))
  dispatch-GoesInto r now next a (start_test e h) = simp e (grind (arith, accepts-append))
  dispatch-GoesInto r now next a (pass_test e h) = simp e (grind (arith, accepts-append))
  dispatch-GoesInto r now next a (retry_test p e h d q) =
      simp e (ground (arith, test_failure-GoesInto r now next p))
  dispatch-GoesInto r now next a (hold_after_test p e h d q) =
      simp e (ground (arith, test_failure-GoesInto r now next p))
  dispatch-GoesInto r now next a (beat e h) = simp e (grind (arith, accepts-append))
  dispatch-GoesInto r now next a (send_to_rework p e h d q) =
      simp e (ground (arith, disposition_rework r now next p))
  dispatch-GoesInto r now next a (scrap p e h d q) =
      simp e (ground (arith, disposition_scrap r now next p))
  dispatch-GoesInto r now next a (start_rework e h) = simp e (grind (arith, accepts-append))
  dispatch-GoesInto r now next a (finish_rework e h) = simp e (grind (arith, accepts-append))
  dispatch-GoesInto r now next a (enter_inspection e h q) =
      simp e (grind (arith, accepts-append, eq_iff s.station_id "inspection"))
  dispatch-GoesInto r now next a (finish_inspection e h) = simp e (grind (arith, accepts-append))

  conclude-AcceptedInto :
      (wf : UnitWorkflow) (now : Time) (t : State) (b : Branch)
      → GoesInto t b
      → AcceptedInto t (conclude wf s now b)
  unfolding conclude
  conclude-AcceptedInto wf now t (reject_with reason) h = absurd h
  conclude-AcceptedInto wf now t (fail_with e) h = h
  conclude-AcceptedInto wf now t (proceed n r) h = h

  apply_signal-AcceptedInto :
      (wf : UnitWorkflow) (now : Time) (t : State)
      → let k = known_workflow wf s now in
        Advance json policy s k.state (failures k) t
        → AcceptedInto t (apply_signal json policy wf s now)
  unfolding apply_signal
  apply_signal-AcceptedInto wf now t a =
      let k = known_workflow wf s now in
      conclude-AcceptedInto k now t _
        (dispatch-GoesInto (accepting k s now) now (noted k s now) refl a)

  accepted_of_Answers :
      (wf : UnitWorkflow) (now : Time) (t : State) (r : Result TransitionResult)
      → Answers json policy s wf now r
      → AcceptedInto t r
      → Advance json policy s wf.state (failures wf) t
  unfolding reject
  accepted_of_Answers wf now t (ok r) (inl (a, b)) h = rw (← h.1) b
  accepted_of_Answers wf now t (ok r) (inr (reason, e)) h = cc
  accepted_of_Answers wf now t (err e) b h = absurd h

  -- For every snapshot, signal, time and state `t`: the engine accepts the signal and leaves the unit
  -- in `t` if and only if the relation `Advance`, read off the lifecycle diagram, allows the step to
  -- `t` from the state and the failure count of the snapshot that the signal is applied to.
  pub apply_signal-AcceptedInto_iff :
      (wf : UnitWorkflow) (now : Time) (t : State)
      → let k = known_workflow wf s now in
        Advance json policy s k.state (failures k) t
        ↔ AcceptedInto t (apply_signal json policy wf s now)
  apply_signal-AcceptedInto_iff wf now t = (
    apply_signal-AcceptedInto wf now t,
    accepted_of_Answers _ now t _ (apply_signal-Answers json policy s wf now),
  )
