-- ===== src/Projections.antt =====
-- internal/projections/types.go: the rows of the dashboards.
use forge_mini.Base.{String}
use forge_mini.Base.Machine.{Int64, Time}

-- `UnitStatusView`
pub record UnitStatusView : Type 0 where
  pub unit_id : String
  pub workflow_state : String
  pub current_station_id : String
  pub active_hold_reason : String
  pub open_incident_id : String
  pub retry_count : Int64
  pub last_signal_type : String
  pub last_decision_type : String
  pub last_updated_at : Time

-- `IncidentDashboardItem`
pub record IncidentDashboardItem : Type 0 where
  pub incident_id : String
  pub unit_id : String
  pub station_id : String
  pub status : String
  pub category : String
  pub severity : String
  pub recommended_action : String
  pub updated_at : Time

-- `StationHealthView`
pub record StationHealthView : Type 0 where
  pub station_id : String
  pub active_unit_id : String
  pub last_heartbeat_at : Time
  pub current_status : String
  pub open_incident_count : Int64
  pub retry_count_last_hour : Int64
