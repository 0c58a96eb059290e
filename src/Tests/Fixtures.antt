-- ===== src/Tests/Fixtures.antt =====
-- A codec, a clock, signals, timers and snapshots to run the program's parts on. The payloads of a
-- real codec are JSON; here a payload is the failure class or the action alone.
use forge_mini.Base.{ℕ, ◌+◌, ◌*◌, String, refl, [], str_eq, if◌then◌else◌}
use forge_mini.Base.Errors.{Error, json_error, ok, err}
use forge_mini.Base.Machine.{Time, unix_epoch, second}
use forge_mini.Signals.{
  SignalType, unit_admitted, station_entered, test_failed, OperationalSignal, Codec,
}
use forge_mini.Incidents.{Incident, open_status}
use forge_mini.Workflow.State.{
  awaiting_test_result, on_hold, completed, heartbeat_timeout, UnitWorkflow, new,
}
use forge_mini.Workflow.Decisions.{TimerPayload}
use forge_mini.Workflow.Finish.{Approval}

abbrev pub no_input : Error
no_input = json_error "unexpected end of JSON input"

abbrev pub codec : Codec
codec = record {
  unmarshal_test_failed = λ s.
      if str_eq s ""
      then err no_input
      else ok
          (record { failure_code = ""; failure_class = s; message = ""; measurement_summary = [] });
  unmarshal_quality_disposition = λ s.
      if str_eq s "" then err no_input else ok (record { action = s; reason = ""; actor = "" });
  marshal_test_failed = λ p. ok p.failure_class;
  marshal_quality_disposition = λ p. ok p.action;
}

-- a reading each second, from 1970 on
abbrev pub clock : ℕ → Time
clock n = unix_epoch + n * second

abbrev pub signal_of : String → SignalType → String → String → OperationalSignal
signal_of id type station payload = record {
  id = id;
  type = type;
  unit_id = "u-1";
  source = "bench";
  station_id = station;
  correlation_id = "";
  sequence = 0;
  occurred_at = 0;
  received_at = 0;
  payload = payload;
}

abbrev pub admission : OperationalSignal
admission = signal_of "s-1" unit_admitted "" ""

abbrev pub entry : OperationalSignal
entry = signal_of "s-2" station_entered "assembly" ""

abbrev pub failure : OperationalSignal
failure = signal_of "s-3" test_failed "test" "flaky_infra"

abbrev pub bad_failure_signal : OperationalSignal
bad_failure_signal = signal_of "s-4" test_failed "test" ""

abbrev pub timeout : TimerPayload
timeout = record {
  key = "u-1:station_heartbeat_timeout:assembly";
  workflow_id = "wf-u-1";
  unit_id = "u-1";
  timer_type = heartbeat_timeout;
  station_id = "assembly";
  fire_at = 0;
}

abbrev pub fresh_unit : UnitWorkflow
fresh_unit = new "u-1" 0

-- the unit under test
abbrev pub tested : UnitWorkflow
tested = record fresh_unit { state = awaiting_test_result; current_station_id = "test" }

abbrev pub held : UnitWorkflow
held = record fresh_unit { state = on_hold; active_hold_reason = "retry_budget_exhausted" }

abbrev pub finished : UnitWorkflow
finished = record fresh_unit { state = completed }

abbrev pub route : Approval codec
route = record {
  text = "route_to_rework";
  payload = record { action = "route_to_rework"; reason = ""; actor = "" };
  decodes = refl;
  approves = refl;
}

abbrev pub open_incident : Incident
open_incident = record {
  id = "inc-1";
  unit_id = "u-1";
  workflow_id = "wf-u-1";
  station_id = "test";
  status = open_status;
  category = "test_flake";
  severity = "medium";
  opened_at = 0;
  last_updated_at = 0;
  recommended_action = "retry_test";
  assigned_to = "";
  summary = "";
}
