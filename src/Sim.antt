-- ===== src/Sim.antt =====
-- internal/sim/scenarios.go: the built-in demo scenarios.
use forge_mini.Base.{◌*◌, String, concat, Option, none, some, List, [], ◌∷◌, str_eq, if◌then◌else◌}
use forge_mini.Base.Errors.{unknown_scenario, Result, ok, err, ◌>>=◌}
use forge_mini.Base.Machine.{Time, add, second}
use forge_mini.Signals.{
  SignalType, unit_admitted, station_entered, assembly_completed, test_started, test_passed,
  test_failed, quality_disposition, rework_started, rework_completed, inspection_completed,
  OperationalSignal, TestFailedPayload, QualityDispositionPayload, Codec,
}
use forge_mini.Workflow.State.{TimerType, heartbeat_timeout, retry_backoff, timer_text}
use forge_mini.Workflow.Decisions.{TimerPayload}

-- `Step`; nil pointers are `none`
pub record Step : Type 0 where
  pub name : String
  pub signal : Option OperationalSignal
  pub timer : Option TimerPayload

-- `ScenarioNames`
unfoldable pub scenario_names : List String
scenario_names =
    "happy_path_unit" ∷ "flaky_retry_success" ∷ "repeated_failure_rework" ∷ "heartbeat_timeout_hold"
    ∷ "duplicate_signal_rejected" ∷ []

-- A signal literal of a scenario: what it does not give is the zero value.
abbrev pub signal_step :
    String → String → String → SignalType → String → String → Time → String → Step
signal_step name unit suffix type source station occurred_at payload = record {
  name = name;
  signal = some (record {
    id = concat unit suffix;
    type = type;
    unit_id = unit;
    source = source;
    station_id = station;
    correlation_id = "";
    sequence = 0;
    occurred_at = occurred_at;
    received_at = 0;
    payload = payload;
  });
  timer = none;
}

-- A timer literal of a scenario.
abbrev pub timer_step : String → String → TimerType → String → Time → Step
unfolding timer_text
timer_step name unit type station fire_at = record {
  name = name;
  signal = none;
  timer = some (record {
    key = concat unit (concat ":" (concat (timer_text type) (concat ":" station)));
    workflow_id = concat "wf-" unit;
    unit_id = unit;
    timer_type = type;
    station_id = station;
    fire_at = fire_at;
  });
}

-- the payload of the first failure in `flakyRetrySuccess`
abbrev pub first_failure : TestFailedPayload
first_failure = record {
  failure_code = "fixture_comm_error";
  failure_class = "flaky_infra";
  message = "lost connection to fixture controller";
  measurement_summary = [];
}

-- the payloads of `repeatedFailureRework`
abbrev pub repeated_failure : TestFailedPayload
repeated_failure = record {
  failure_code = "fixture_comm_error";
  failure_class = "flaky_infra";
  message = "fixture communications still unstable after retry";
  measurement_summary = [];
}

abbrev pub rework_disposition : QualityDispositionPayload
rework_disposition = record {
  action = "route_to_rework";
  reason = "reseat fixture connector and rerun sequence";
  actor = "eng-102";
}

module _ (unit : String) (base : Time) where
  -- the steps up to the start of the test, with which three scenarios begin
  to_test : List Step → List Step
  unfolding add
  to_test rest =
      signal_step "admit" unit "-sig-1" unit_admitted "planner" "" base ""
      ∷ signal_step "enter-assembly" unit "-sig-2" station_entered "assembly-station-1" "assembly"
          (add base (1 * second)) ""
      ∷ signal_step "assembly-complete" unit "-sig-3" assembly_completed "assembly-station-1"
          "assembly" (add base (2 * second)) ""
      ∷ signal_step "test-started" unit "-sig-4" test_started "test-bench-2" "test"
          (add base (3 * second)) ""
      ∷ rest

  -- `happyPathUnit`
  unfoldable pub happy_path_unit : List Step
  unfolding to_test add
  happy_path_unit = to_test (
      signal_step "test-passed" unit "-sig-5" test_passed "test-bench-2" "test"
        (add base (4 * second)) ""
      ∷ signal_step "enter-inspection" unit "-sig-6" station_entered "inspection-station-1"
          "inspection" (add base (5 * second)) ""
      ∷ signal_step "inspection-complete" unit "-sig-7" inspection_completed "inspection-station-1"
          "inspection" (add base (6 * second)) ""
      ∷ [])

  -- `flakyRetrySuccess`
  unfoldable pub flaky_retry_success : Codec → Result (List Step)
  unfolding to_test timer_text add
  flaky_retry_success json = do
    payload ← json.marshal_test_failed first_failure
    ok (
        to_test (
          signal_step "test-failed" unit "-sig-5" test_failed "test-bench-2" "test"
            (add base (4 * second)) payload
          ∷ timer_step "retry-backoff-fired" unit retry_backoff "test" (add base (7 * second))
          ∷ signal_step "test-passed" unit "-sig-6" test_passed "test-bench-2" "test"
              (add base (8 * second)) ""
          ∷ []))

  -- `repeatedFailureRework`
  unfoldable pub repeated_failure_rework : Codec → Result (List Step)
  unfolding to_test timer_text add
  repeated_failure_rework json = do
    payload ← json.marshal_test_failed repeated_failure
    disposition ← json.marshal_quality_disposition rework_disposition
    ok (
        to_test (
          signal_step "test-failed-1" unit "-sig-5" test_failed "test-bench-2" "test"
            (add base (4 * second)) payload
          ∷ timer_step "retry-backoff-fired" unit retry_backoff "test" (add base (7 * second))
          ∷ signal_step "test-failed-2" unit "-sig-6" test_failed "test-bench-2" "test"
              (add base (8 * second)) payload
          ∷ signal_step "route-to-rework" unit "-sig-7" quality_disposition "quality-console" "test"
              (add base (9 * second)) disposition
          ∷ signal_step "rework-started" unit "-sig-8" rework_started "rework-station-1" "rework"
              (add base (10 * second)) ""
          ∷ signal_step "rework-completed" unit "-sig-9" rework_completed "rework-station-1"
              "rework" (add base (11 * second)) ""
          ∷ []))

  -- `heartbeatTimeoutHold`
  unfoldable pub heartbeat_timeout_hold : List Step
  unfolding timer_text add
  heartbeat_timeout_hold =
      signal_step "admit" unit "-sig-1" unit_admitted "planner" "" base ""
      ∷ signal_step "enter-assembly" unit "-sig-2" station_entered "assembly-station-1" "assembly"
          (add base (1 * second)) ""
      ∷ timer_step "heartbeat-timeout-fired" unit heartbeat_timeout "assembly"
          (add base (31 * second))
      ∷ []

  -- `duplicateSignalRejected`
  unfoldable pub duplicate_signal_rejected : List Step
  duplicate_signal_rejected =
      signal_step "admit" unit "-sig-1" unit_admitted "planner" "" base ""
      ∷ signal_step "duplicate-admit" unit "-sig-1" unit_admitted "planner" "" base ""
      ∷ []

-- `BuildScenario`
unfoldable pub build_scenario : Codec → String → String → Time → Result (List Step)
unfolding happy_path_unit flaky_retry_success repeated_failure_rework heartbeat_timeout_hold
    duplicate_signal_rejected
build_scenario json name unit base =
    if str_eq name "happy_path_unit"
    then ok (happy_path_unit unit base)
    else if str_eq name "flaky_retry_success"
    then flaky_retry_success unit base json
    else if str_eq name "repeated_failure_rework"
    then repeated_failure_rework unit base json
    else if str_eq name "heartbeat_timeout_hold"
    then ok (heartbeat_timeout_hold unit base)
    else if str_eq name "duplicate_signal_rejected"
    then ok (duplicate_signal_rejected unit base)
    else err (unknown_scenario name)
