-- ===== src/Workflow/Run/Counts.antt =====
-- How many failed tests the engine of internal/workflow/engine.go counts over a sequence of events.
use forge_mini.Base.{
  ℕ, suc, ◌+◌, ◌<◌, ◌≤◌, ◌^◌, String, ◌≡◌, refl, ◌≢◌, sym, ◌∙◌, List, [], ◌∷◌, false, Bool-cases,
  inl, inr, str_eq, arith,
}
use forge_mini.Base.Dict.{lookup, insert}
use forge_mini.Base.Errors.{Result, ok, err, Result-cases}
use forge_mini.Base.Machine.{Time, int_add, is_negative}
use forge_mini.Signals.{
  SignalType, unit_admitted, station_entered, assembly_completed, test_started, test_passed,
  test_failed, heartbeat_received, quality_disposition, rework_started, rework_completed,
  inspection_completed, operator_override, other, OperationalSignal, TestFailedPayload,
  QualityDispositionPayload, Codec,
}
use forge_mini.Policy.{RetryPolicy}
use forge_mini.Workflow.State.{State, awaiting_test_result, UnitWorkflow, new, attempt_at}
use forge_mini.Workflow.Decisions.{TransitionResult}
use forge_mini.Workflow.Branch.{Branch, reject_with, fail_with, proceed}
use forge_mini.Workflow.Cases.{
  disposition, on_unit_admitted, on_station_entered, on_assembly_completed, on_heartbeat,
  on_quality_disposition, on_rework_started, on_rework_completed, on_inspection_completed,
}
use forge_mini.Workflow.TestCases.{
  retry_branch, hold_branch, test_failure, on_test_started, on_test_failed, on_test_passed,
}
use forge_mini.Workflow.Engine.{
  settle, noted, accepting, reject, conclude, dispatch, apply_signal, ignore_timer, reopen,
  on_timeout,
}
use forge_mini.Workflow.Identity.{IsOf, AnswersFor, apply_signal-AnswersFor, apply_timer-AnswersFor}
use forge_mini.Workflow.Keys.{prefix-ne-nil}
use forge_mini.Workflow.Lifecycle.{failures}
use forge_mini.Workflow.Outcome.{ResultIs, apply_timer-cases}
use forge_mini.Workflow.TimerInvariant.{known_workflow_named, failures-insert, int_add_one}
use forge_mini.Workflow.Run.{Event, signalled, fired, kept, step, run}
use forge_mini.Workflow.Run.Orderly.{length}

-- A signal reports a failed test if it says so of a unit that waits for the result of its test, with
-- a payload that decodes.
abbrev pub reports : SignalType → State → Result TestFailedPayload → ℕ
reports test_failed awaiting_test_result (ok p) = 1
reports _ _ _ = 0

reports-small : (ty : SignalType) (st : State) (r : Result TestFailedPayload) → reports ty st r ≤ 1
reports-small ty st r = ground arith

-- how a case counts
abbrev Counts : ℕ → UnitWorkflow → Branch → Type 0
Counts k next (reject_with reason) = k ≡ 0
Counts k next (fail_with e) = k ≡ 0
Counts k next (proceed n r) = failures n ≡ failures next + k

module _ (json : Codec) (policy : RetryPolicy) (s : OperationalSignal) (now : Time)
    (k : UnitWorkflow) where
  test_failure-Counts :
      (next : UnitWorkflow) (p : TestFailedPayload)
      → suc (failures next) < 2 ^ 63
      → Counts 1 next (test_failure (accepting k s now) s now policy next p)
  unfolding test_failure retry_branch hold_branch
  test_failure-Counts next p small =
      let a = failures next in
      let count : attempt_at "test" (insert "test" (int_add a 1) next.attempt_count_by_station)
          ≡ a + 1 =
        failures-insert (int_add a 1) next.attempt_count_by_station
        ∙ int_add_one a a (omega arith) small
        ∙ omega arith in
      elim (Bool-cases (policy.evaluate p.failure_class a).retry_authorized) [
        | inl q ↦ rw q count
        | inr q ↦ rw q count
      ]

  disposition-Counts :
      (next : UnitWorkflow) (p : QualityDispositionPayload)
      → Counts 0 next (disposition (accepting k s now) s now next p)
  unfolding disposition
  disposition-Counts next p = elim (Bool-cases (str_eq p.action "route_to_rework")) [
    | inl q ↦ rw q (omega arith)
    | inr q ↦ rw q (elim (Bool-cases (str_eq p.action "scrap")) [
      | inl x ↦ rw x (omega arith)
      | inr x ↦ rw x refl
    ])
  ]

  dispatch-Counts :
      (ty : SignalType) (next : UnitWorkflow)
      → suc (failures next) < 2 ^ 63
      → Counts
          (reports ty next.state (json.unmarshal_test_failed s.payload))
          next
          (dispatch json policy ty (accepting k s now) s now next)
  unfolding dispatch on_unit_admitted on_station_entered on_assembly_completed on_test_started
      on_test_failed on_test_passed on_heartbeat on_quality_disposition on_rework_started
      on_rework_completed on_inspection_completed
  dispatch-Counts unit_admitted next small = ground arith
  dispatch-Counts station_entered next small = ground arith
  dispatch-Counts assembly_completed next small = ground arith
  dispatch-Counts test_started next small = ground arith
  dispatch-Counts test_passed next small = ground arith
  dispatch-Counts test_failed next small =
      elim (Result-cases (json.unmarshal_test_failed s.payload)) [
        | inl (p, d) ↦ ground (arith, test_failure-Counts next p small)
        | inr (x, d) ↦ ground arith
      ]
  dispatch-Counts heartbeat_received next small = ground arith
  dispatch-Counts quality_disposition next small =
      elim (Result-cases (json.unmarshal_quality_disposition s.payload)) [
        | inl (p, d) ↦ ground (arith, disposition-Counts next p)
        | inr (x, d) ↦ ground arith
      ]
  dispatch-Counts rework_started next small = ground arith
  dispatch-Counts rework_completed next small = ground arith
  dispatch-Counts inspection_completed next small = ground arith
  dispatch-Counts operator_override next small = refl
  dispatch-Counts (other x) next small = refl

kept-Counts :
    (wf next : UnitWorkflow) (s : OperationalSignal) (now : Time) (k : ℕ) (b : Branch)
    → failures next ≡ failures wf
    → failures (reject wf s now "").next_workflow ≡ failures wf
    → Counts k next b
    → failures (kept wf (conclude wf s now b)).0 ≡ failures wf + k
unfolding conclude kept settle reject
kept-Counts wf next s now k (reject_with reason) same known h = known ∙ rw h (omega arith)
kept-Counts wf next s now k (fail_with e) same known h = rw h (omega arith)
kept-Counts wf next s now k (proceed n r) same known h = rw (← same) h

kept-IsOf :
    (unit : String) (wf : UnitWorkflow) (r : Result TransitionResult)
    → IsOf unit wf
    → ResultIs (AnswersFor unit) r
    → IsOf unit (kept wf r).0
unfolding kept
kept-IsOf unit wf (ok r) own h = h.0
kept-IsOf unit wf (err e) own h = own

module _ (json : Codec) (policy : RetryPolicy) where
  -- the failed tests that a sequence of events reports to a unit
  abbrev reported : UnitWorkflow → Event → ℕ
  reported wf (signalled s now) = reports s.type wf.state (json.unmarshal_test_failed s.payload)
  reported wf (fired p now) = 0

  abbrev pub failed_tests : UnitWorkflow → List Event → ℕ
  failed_tests wf [] = 0
  failed_tests wf (e ∷ es) = reported wf e + failed_tests (step json policy wf e).0 es

  step-Counts :
      (wf : UnitWorkflow) (e : Event)
      → wf.workflow_id ≢ ""
      → suc (failures wf) < 2 ^ 63
      → failures (step json policy wf e).0 ≡ failures wf + reported wf e
  unfolding step apply_signal noted reject ignore_timer reopen on_timeout
  step-Counts wf (signalled s now) named small =
      let known = known_workflow_named wf s now named in
      rw known (
        kept-Counts wf (noted wf s now) s now _
          (dispatch json policy s.type (accepting wf s now) s now (noted wf s now)) refl
          (rw known refl) (dispatch-Counts json policy s now wf s.type (noted wf s now) small))
  step-Counts wf (fired p now) named small =
      apply_timer-cases (λ r. failures r.next_workflow ≡ failures wf + 0) wf p now
        (λ reason summary. omega arith) (λ e waiting. omega arith) (λ h. omega arith)

  reported-small : (wf : UnitWorkflow) (e : Event) → reported wf e ≤ 1
  reported-small wf (signalled s now) = reports-small s.type wf.state _
  reported-small wf (fired p now) = omega arith

  step-IsOf :
      (unit : String) (wf : UnitWorkflow) (e : Event)
      → IsOf unit wf
      → IsOf unit (step json policy wf e).0
  unfolding step
  step-IsOf unit wf (signalled s now) own =
      kept-IsOf unit wf (apply_signal json policy wf s now) own
        (apply_signal-AnswersFor json policy unit s now wf own)
  step-IsOf unit wf (fired p now) own = (apply_timer-AnswersFor unit wf p now own).0

  run_from :
      (unit : String) (es : List Event) (wf : UnitWorkflow)
      → IsOf unit wf
      → failures wf + length es < 2 ^ 63
      → (failures (run json policy wf es).0 ≡ failures wf + failed_tests wf es)
        × (failed_tests wf es ≤ length es)
  unfolding run
  run_from unit [] wf own small = (omega arith, omega arith)
  run_from unit (e ∷ es) wf own small =
      let next = (step json policy wf e).0 in
      let count : failures next ≡ failures wf + reported wf e =
        step-Counts wf e (λ q. prefix-ne-nil unit (sym own.1 ∙ q)) (omega (arith, small)) in
      let one = reported-small wf e in
      let (all, few) =
        run_from unit es next (step-IsOf unit wf e own) (omega (arith, count, one, small)) in
      (all ∙ omega (arith, count), omega (arith, few, one))

  -- For a new unit and any list of fewer than 2 ^ 63 events, whatever the policy: the count of failed
  -- tests, which Go keeps in an int and the policy is asked about, is the number of the events that
  -- are a test.failed signal with a payload that decodes and that reach the unit while it waits for
  -- the result of its test; it is no more than the number of events, so it is never negative.
  pub run_counts :
      (unit : String) (born : Time) (es : List Event)
      → length es < 2 ^ 63
      → let wf = (run json policy (new unit born) es).0 in
        (failures wf ≡ failed_tests (new unit born) es)
        × (failures wf ≤ length es)
        × (is_negative (failures wf) ≡ false)
  unfolding new attempt_at lookup
  run_counts unit born es small =
      let (all, few) = run_from unit es (new unit born) (refl, refl) (omega (arith, small)) in
      let wf = (run json policy (new unit born) es).0 in
      let count : failures wf ≡ failed_tests (new unit born) es = all ∙ omega arith in
      let bound : failures wf ≤ length es = omega (arith, count, few) in
      (count, bound, ground (arith, bound, small))
