-- ===== src/Workflow/TestCases.antt =====
-- The cases of `Engine.ApplySignal` in internal/workflow/engine.go for the test station.
use forge_mini.Base.{◌*◌, String, List, [], ◌∷◌, ◌++◌, if◌then◌else◌}
use forge_mini.Base.Dict.{insert}
use forge_mini.Base.Errors.{decode_test_failure_payload, ok, err}
use forge_mini.Base.Machine.{Time, add, second, minute, int_add}
use forge_mini.Signals.{OperationalSignal, TestFailedPayload, Codec}
use forge_mini.Policy.{RetryPolicy, RetryPolicyResult}
use forge_mini.Workflow.State.{
  ready_for_test, awaiting_test_result, retry_pending, on_hold, ready_for_inspection,
  test_result_timeout, heartbeat_timeout, retry_backoff, manual_review_sla, timer_text,
  UnitWorkflow, attempt_at,
}
use forge_mini.Workflow.Decisions.{
  cancel_timer, start_retry, place_hold, escalate, complete_incident, WorkflowDecision, upsert,
  close, no_action, TransitionResult, new_decision, transition_decision,
}
use forge_mini.Workflow.Timers.{timer_key}
use forge_mini.Workflow.Branch.{
  Branch, fail_with, proceed, unexpected, with_decisions, start_timers, cancel_timers,
  timer_request, heartbeat_request,
}

module _ (result : TransitionResult) (signal : OperationalSignal) (now : Time) where
  -- `case signals.SignalTestStarted`
  unfoldable pub on_test_started : UnitWorkflow → Branch
  unfolding heartbeat_request transition_decision timer_key add
  on_test_started next = elim next.state [
    | ready_for_test ↦
        let next = record next { state = awaiting_test_result; current_station_id = "test" } in
        let result =
          with_decisions result (transition_decision next awaiting_test_result now ∷ []) in
        let timeout =
          timer_request signal.unit_id test_result_timeout "test" (add now (45 * second)) in
        proceed next (start_timers result (timeout ∷ heartbeat_request signal now "test" ∷ []))
    | _ ↦ unexpected
  ]

  -- the two timers of a test that both outcomes cancel, and the decisions that say so
  unfoldable pub test_timers : List String
  unfolding timer_key
  test_timers =
      timer_key signal.unit_id test_result_timeout "test"
      ∷ timer_key signal.unit_id heartbeat_timeout "test"
      ∷ []

  unfoldable pub result_recorded : UnitWorkflow → List WorkflowDecision
  unfolding new_decision timer_text
  result_recorded next =
      new_decision next cancel_timer "test_result_recorded" (timer_text test_result_timeout)
        signal.source now
      ∷ new_decision next cancel_timer "test_result_recorded" (timer_text heartbeat_timeout)
          signal.source now
      ∷ []

  -- `if policyResult.RetryAuthorized` of `case signals.SignalTestFailed`
  unfoldable pub retry_branch :
      TransitionResult → TestFailedPayload → RetryPolicyResult → UnitWorkflow → Branch
  unfolding new_decision transition_decision timer_key add
  retry_branch result payload verdict next =
      let next = record next { state = retry_pending } in
      let retry =
        new_decision next start_retry verdict.reason_code payload.failure_code signal.source now in
      let result =
        with_decisions result (retry ∷ transition_decision next retry_pending now ∷ []) in
      let result = record result {
        incident_action = record {
          type = upsert;
          category = "test_flake";
          severity = "medium";
          summary = payload.message;
          recommended_action = "retry_test";
          station_id = "test";
        };
      } in
      let backoff = timer_request signal.unit_id retry_backoff "test" (add now verdict.backoff) in
      proceed next (start_timers result (backoff ∷ []))

  -- its `else`
  unfoldable pub hold_branch :
      TransitionResult → TestFailedPayload → RetryPolicyResult → UnitWorkflow → Branch
  unfolding new_decision transition_decision timer_key add
  hold_branch result payload verdict next =
      let next = record next { state = on_hold; active_hold_reason = verdict.reason_code } in
      let hold =
        new_decision next place_hold verdict.reason_code payload.failure_code signal.source now in
      let review =
        new_decision next escalate verdict.reason_code "manual review required" signal.source now in
      let result =
        with_decisions result (hold ∷ review ∷ transition_decision next on_hold now ∷ []) in
      let result = record result {
        incident_action = record {
          type = upsert;
          category = "repeated_failure";
          severity = "high";
          summary = payload.message;
          recommended_action = "route_to_rework";
          station_id = "test";
        };
      } in
      let sla = timer_request signal.unit_id manual_review_sla "test" (add now (15 * minute)) in
      proceed next (start_timers result (sla ∷ []))

  -- a decoded failure: count the attempt and ask the policy about the count before it
  unfoldable pub test_failure : RetryPolicy → UnitWorkflow → TestFailedPayload → Branch
  unfolding attempt_at insert int_add test_timers result_recorded
  test_failure policy next payload =
      let attempt = attempt_at "test" next.attempt_count_by_station in
      let verdict = policy.evaluate payload.failure_class attempt in
      let counts = insert "test" (int_add attempt 1) next.attempt_count_by_station in
      let next = record next { attempt_count_by_station = counts } in
      let result = with_decisions (cancel_timers result test_timers) (result_recorded next) in
      if verdict.retry_authorized
      then retry_branch result payload verdict next
      else hold_branch result payload verdict next

  -- `case signals.SignalTestFailed`
  unfoldable pub on_test_failed : Codec → RetryPolicy → UnitWorkflow → Branch
  on_test_failed json policy next = elim next.state [
    | awaiting_test_result ↦ elim (json.unmarshal_test_failed signal.payload) [
      | err e ↦ fail_with (decode_test_failure_payload e)
      | ok payload ↦ test_failure policy next payload
    ]
    | _ ↦ unexpected
  ]

  -- `case signals.SignalTestPassed`
  unfoldable pub on_test_passed : UnitWorkflow → Branch
  unfolding test_timers result_recorded new_decision transition_decision
  on_test_passed next = elim next.state [
    | awaiting_test_result ↦
        let next = record next { state = ready_for_inspection; active_hold_reason = "" } in
        let resolved =
          new_decision next complete_incident "test_passed" "incident resolved" signal.source now in
        let result = with_decisions result (
          result_recorded next
          ++ (transition_decision next ready_for_inspection now ∷ resolved ∷ [])) in
        let result = cancel_timers result test_timers in
        proceed next (record result { incident_action = record no_action { type = close } })
    | _ ↦ unexpected
  ]
