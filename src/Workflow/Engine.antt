-- ===== src/Workflow/Engine.antt =====
-- `Engine.ApplySignal` and `Engine.ApplyTimer` of internal/workflow/engine.go.
use forge_mini.Base.{◌*◌, String, [], ◌∷◌, ◌++◌, str_eq, if◌then◌else◌}
use forge_mini.Base.Errors.{Result, ok, err}
use forge_mini.Base.Machine.{Time, add, second}
use forge_mini.Signals.{
  SignalType, unit_admitted, station_entered, assembly_completed, test_started, test_passed,
  test_failed, heartbeat_received, quality_disposition, rework_started, rework_completed,
  inspection_completed, signal_text, OperationalSignal, Codec,
}
use forge_mini.Policy.{RetryPolicy}
use forge_mini.Workflow.State.{
  State, awaiting_test_result, retry_pending, on_hold, state_text, TimerType, test_result_timeout,
  heartbeat_timeout, retry_backoff, timer_text, UnitWorkflow, new,
}
use forge_mini.Workflow.Decisions.{
  accept_signal, reject_signal, transition_state, schedule_timer, place_hold, escalate, upsert,
  no_action, TimerPayload, TransitionResult, new_decision, transition_decision,
}
use forge_mini.Workflow.Timers.{timer_key, remove_timer, add_timers, remove_timers}
use forge_mini.Workflow.Branch.{Branch, reject_with, fail_with, proceed, timer_request}
use forge_mini.Workflow.Cases.{
  on_unit_admitted, on_station_entered, on_assembly_completed, on_heartbeat, on_quality_disposition,
  on_rework_started, on_rework_completed, on_inspection_completed,
}
use forge_mini.Workflow.TestCases.{on_test_started, on_test_failed, on_test_passed}

-- `TransitionResult{NextWorkflow: wf}`
abbrev pub unchanged : UnitWorkflow → TransitionResult
unchanged wf = record {
  next_workflow = wf;
  decisions = [];
  incident_action = no_action;
  timers_to_start = [];
  timers_to_cancel = [];
}

-- the snapshot that a signal is applied to: a new one where `wf.WorkflowID == ""`
unfoldable pub known_workflow : UnitWorkflow → OperationalSignal → Time → UnitWorkflow
unfolding new
known_workflow wf signal now = if str_eq wf.workflow_id "" then new signal.unit_id now else wf

-- `reject`
unfoldable pub reject : UnitWorkflow → OperationalSignal → Time → String → TransitionResult
unfolding known_workflow new_decision signal_text
reject wf signal now reason =
    let wf = known_workflow wf signal now in
    record (unchanged wf) {
      decisions =
          new_decision wf reject_signal reason (signal_text signal.type) signal.source now ∷ [];
    }

-- the timer bookkeeping below the `switch`
unfoldable pub settle : Time → UnitWorkflow → TransitionResult → UnitWorkflow
unfolding add_timers remove_timers
settle now next result =
    let started = add_timers next.active_timer_keys result.timers_to_start in
    let active = remove_timers started result.timers_to_cancel in
    record next { active_timer_keys = active; last_decision_at = now }

-- what follows the `switch`, or the early return
unfoldable pub conclude : UnitWorkflow → OperationalSignal → Time → Branch → Result TransitionResult
unfolding reject settle
conclude wf signal now (reject_with reason) = ok (reject wf signal now reason)
conclude wf signal now (fail_with e) = err e
conclude wf signal now (proceed next result) =
    ok (record result { next_workflow = settle now next result })

-- `result` and `next` before the `switch`
unfoldable pub accepting : UnitWorkflow → OperationalSignal → Time → TransitionResult
unfolding new_decision signal_text
accepting wf signal now = record (unchanged wf) {
  decisions =
      new_decision wf accept_signal "valid_transition" (signal_text signal.type) signal.source now
      ∷ [];
}

unfoldable pub noted : UnitWorkflow → OperationalSignal → Time → UnitWorkflow
unfolding signal_text
noted wf signal now = record wf {
  last_signal_id = signal.id;
  last_signal_type = signal_text signal.type;
  last_signal_at = now;
  updated_at = now;
}

module _ (json : Codec) (policy : RetryPolicy) where
  -- the `switch signal.Type`
  unfoldable pub dispatch :
      SignalType → TransitionResult → OperationalSignal → Time → UnitWorkflow → Branch
  dispatch unit_admitted r s now next = on_unit_admitted r s now next
  dispatch station_entered r s now next = on_station_entered r s now next
  dispatch assembly_completed r s now next = on_assembly_completed r s now next
  dispatch test_started r s now next = on_test_started r s now next
  dispatch test_failed r s now next = on_test_failed r s now json policy next
  dispatch test_passed r s now next = on_test_passed r s now next
  dispatch heartbeat_received r s now next = on_heartbeat r s now next
  dispatch quality_disposition r s now next = on_quality_disposition r s now json next
  dispatch rework_started r s now next = on_rework_started r s now next
  dispatch rework_completed r s now next = on_rework_completed r s now next
  dispatch inspection_completed r s now next = on_inspection_completed r s now next
  dispatch _ r s now next = reject_with "unsupported_signal_type"

  -- `Engine.ApplySignal`
  unfoldable pub apply_signal : UnitWorkflow → OperationalSignal → Time → Result TransitionResult
  unfolding known_workflow dispatch conclude accepting noted
  apply_signal wf signal now =
      let wf = known_workflow wf signal now in
      conclude wf signal now
        (dispatch signal.type (accepting wf signal now) signal now (noted wf signal now))

-- a timer that is not acted on
unfoldable pub ignore_timer : UnitWorkflow → String → String → Time → TransitionResult
unfolding new_decision
ignore_timer wf reason summary now = record (unchanged wf) {
  decisions = new_decision wf reject_signal reason summary "timer" now ∷ [];
}

-- `case TimerRetryBackoff` in the state that it expects
unfoldable pub reopen : UnitWorkflow → TimerPayload → Time → TransitionResult
unfolding remove_timer new_decision state_text timer_text timer_key add
reopen wf timer now =
    let timeout = timer_key wf.unit_id test_result_timeout timer.station_id in
    let next = record wf {
      state = awaiting_test_result;
      active_timer_keys = remove_timer wf.active_timer_keys timer.key ++ (timeout ∷ []);
      last_decision_at = now;
      updated_at = now;
    } in
    let reopened =
      new_decision wf transition_state "retry_window_open" (state_text awaiting_test_result) "timer"
        now in
    let awaited =
      new_decision wf schedule_timer "await_test_result_after_retry"
        (timer_text test_result_timeout) "timer" now in
    let request =
      timer_request wf.unit_id test_result_timeout timer.station_id (add now (45 * second)) in
    record (unchanged next) { decisions = reopened ∷ awaited ∷ []; timers_to_start = request ∷ [] }

-- `case TimerRetryBackoff`, by `wf.State`
unfoldable pub on_retry_backoff : State → UnitWorkflow → TimerPayload → Time → TransitionResult
on_retry_backoff retry_pending wf timer now = reopen wf timer now
on_retry_backoff _ wf timer now = ignore_timer wf "unexpected_timer_for_state" timer.key now

-- `case TimerHeartbeatTimeout, TimerTestResultTimeout`
unfoldable pub on_timeout : UnitWorkflow → TimerPayload → Time → TransitionResult
unfolding remove_timer new_decision transition_decision timer_text
on_timeout wf timer now =
    let reason = timer_text timer.timer_type in
    let next = record wf {
      state = on_hold;
      active_hold_reason = reason;
      active_timer_keys = remove_timer wf.active_timer_keys timer.key;
      last_decision_at = now;
      updated_at = now;
    } in
    record (unchanged next) {
      decisions =
          new_decision wf place_hold reason "timer fired" "timer" now
          ∷ new_decision wf escalate reason "manual investigation required" "timer" now
          ∷ transition_decision wf on_hold now
          ∷ [];
      incident_action = record {
        type = upsert;
        category = "heartbeat_timeout";
        severity = "high";
        summary = "workflow timer fired without expected external signal";
        recommended_action = "investigate_station";
        station_id = timer.station_id;
      };
    }

-- the `switch timer.TimerType`
unfoldable pub on_timer : TimerType → UnitWorkflow → TimerPayload → Time → TransitionResult
unfolding on_retry_backoff timer_text
on_timer retry_backoff wf timer now = on_retry_backoff wf.state wf timer now
on_timer heartbeat_timeout wf timer now = on_timeout wf timer now
on_timer test_result_timeout wf timer now = on_timeout wf timer now
on_timer _ wf timer now = ignore_timer wf "unsupported_timer_type" (timer_text timer.timer_type) now

-- `Engine.ApplyTimer`, which returns no error
unfoldable pub apply_timer : UnitWorkflow → TimerPayload → Time → TransitionResult
unfolding on_timer
apply_timer wf timer now = on_timer timer.timer_type wf timer now
