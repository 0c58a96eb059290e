-- ===== src/Workflow/State.antt =====
-- internal/workflow/types.go: the snapshot of one unit's workflow.
use forge_mini.Base.{String, concat, List, [], none, some}
use forge_mini.Base.Dict.{Dict, lookup}
use forge_mini.Base.Machine.{Int64, Time}

-- the constants `State…`
pub data State : Type 0 where
  pending ready_for_assembly in_assembly ready_for_test awaiting_test_result : State
  retry_pending on_hold awaiting_rework in_rework ready_for_inspection in_inspection : State
  completed scrapped : State

unfoldable pub state_text : State → String
state_text pending = "pending"
state_text ready_for_assembly = "ready_for_assembly"
state_text in_assembly = "in_assembly"
state_text ready_for_test = "ready_for_test"
state_text awaiting_test_result = "awaiting_test_result"
state_text retry_pending = "retry_pending"
state_text on_hold = "on_hold"
state_text awaiting_rework = "awaiting_rework"
state_text in_rework = "in_rework"
state_text ready_for_inspection = "ready_for_inspection"
state_text in_inspection = "in_inspection"
state_text completed = "completed"
state_text scrapped = "scrapped"

-- the constants `Timer…`; `other_timer` is a text that is none of them
pub data TimerType : Type 0 where
  test_result_timeout heartbeat_timeout retry_backoff manual_review_sla : TimerType
  other_timer : String → TimerType

unfoldable pub timer_text : TimerType → String
timer_text test_result_timeout = "test_result_timeout"
timer_text heartbeat_timeout = "station_heartbeat_timeout"
timer_text retry_backoff = "retry_backoff_timer"
timer_text manual_review_sla = "manual_review_sla_timer"
timer_text (other_timer s) = s

-- `UnitWorkflow`
pub record UnitWorkflow : Type 0 where
  pub workflow_id : String
  pub unit_id : String
  pub product_code : String
  pub state : State
  pub current_station_id : String
  pub attempt_count_by_station : Dict Int64
  pub active_timer_keys : List String
  pub active_hold_reason : String
  pub open_incident_id : String
  pub last_signal_id : String
  pub last_signal_type : String
  pub last_signal_at : Time
  pub last_decision_at : Time
  pub updated_at : Time

-- `New`
unfoldable pub new : String → Time → UnitWorkflow
new unit now = record {
  workflow_id = concat "wf-" unit;
  unit_id = unit;
  product_code = "";
  state = pending;
  current_station_id = "";
  attempt_count_by_station = [];
  active_timer_keys = [];
  active_hold_reason = "";
  open_incident_id = "";
  last_signal_id = "";
  last_signal_type = "";
  last_signal_at = 0;
  last_decision_at = 0;
  updated_at = now;
}

-- `m[station]` on a map of counts: 0 where the key is missing
unfoldable pub attempt_at : String → Dict Int64 → Int64
unfolding lookup
attempt_at station m = elim (lookup station m) [ none ↦ 0 | some n ↦ n ]
