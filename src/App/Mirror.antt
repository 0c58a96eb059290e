-- ===== src/App/Mirror.antt =====
-- What `commitTransition` of internal/app/app.go does to the incidents, and to the rows of incidents and
-- stations.
pub mod Steps
pub mod Commit
use forge_mini.Base.{
  ℕ, suc, String, ◌≡◌, true, false, Bool, Option, none, some, str_eq, if◌then◌else◌,
}
use forge_mini.Base.Dict.{Dict, lookup, insert, erase}
use forge_mini.Base.Machine.{Time}
use forge_mini.Incidents.{Incident, open_status, resolved, status_text}
use forge_mini.Projections.{IncidentDashboardItem, StationHealthView}
use forge_mini.Workflow.State.{State, on_hold, UnitWorkflow}
use forge_mini.Workflow.Decisions.{IncidentAction, IncidentActionType, upsert, close}
use forge_mini.Store.{Memory}
use forge_mini.App.Incidents.{incident_id}

-- Where an incident comes from: it continues that of the unit, or it is new, made of two readings of
-- the clock.
abbrev pub ComesFrom : (ℕ → Time) → UnitWorkflow → Option Incident → Incident → Type 0
ComesFrom clock wf (some old) i =
    (i.id ≡ old.id)
    × (i.unit_id ≡ old.unit_id)
    × (i.workflow_id ≡ old.workflow_id)
    × (i.opened_at ≡ old.opened_at)
    × (i.assigned_to ≡ old.assigned_to)
ComesFrom clock wf none i =
    (n : ℕ) × (i.id ≡ incident_id (clock n))
    × (i.unit_id ≡ wf.unit_id)
    × (i.workflow_id ≡ wf.workflow_id)
    × (i.opened_at ≡ clock (suc n))
    × (i.assigned_to ≡ "")

-- The incident shows what the engine asks for, and is open.
abbrev pub Shows : IncidentAction → Incident → Type 0
Shows action i =
    (i.station_id ≡ action.station_id)
    × (i.status ≡ open_status)
    × (i.category ≡ action.category)
    × (i.severity ≡ action.severity)
    × (i.summary ≡ action.summary)
    × (i.recommended_action ≡ action.recommended_action)

abbrev pub SameIncidents : Memory → Memory → Type 0
SameIncidents m m' =
    (m'.incidents_by_id ≡ m.incidents_by_id) × (m'.open_incident_by_unit ≡ m.open_incident_by_unit)

-- What an action of the engine makes of the incidents, where `old` is the open one of the unit: `upsert`
-- stores an open incident, `close` stores the open one as resolved and no longer open, and nothing
-- else changes an incident.
abbrev pub Acted :
    (ℕ → Time)
    → UnitWorkflow
    → IncidentAction
    → IncidentActionType
    → Option Incident
    → Memory
    → Memory
    → Type 0
Acted clock wf action upsert old m m' =
    (i : Incident) × ComesFrom clock wf old i
    × Shows action i
    × (m'.incidents_by_id ≡ insert i.id i m.incidents_by_id)
    × (m'.open_incident_by_unit ≡ insert i.unit_id i.id m.open_incident_by_unit)
Acted clock wf action close (some old) m m' =
    (t : Time) × (m'.incidents_by_id
      ≡ insert old.id (record old { status = resolved; last_updated_at = t }) m.incidents_by_id)
    × (m'.open_incident_by_unit ≡ erase old.unit_id m.open_incident_by_unit)
Acted clock wf action _ old m m' = SameIncidents m m'

-- the row of an incident
abbrev pub incident_row : Incident → IncidentDashboardItem
unfolding status_text
incident_row i = record {
  incident_id = i.id;
  unit_id = i.unit_id;
  station_id = i.station_id;
  status = status_text i.status;
  category = i.category;
  severity = i.severity;
  recommended_action = i.recommended_action;
  updated_at = i.last_updated_at;
}

-- The rows of incidents: that of the open incident is written, and where there is none, that of the
-- incident which the snapshot named is taken away.
abbrev pub rows_after :
    Option Incident → String → Dict IncidentDashboardItem → Dict IncidentDashboardItem
rows_after (some i) named rows = insert i.id (incident_row i) rows
rows_after none named rows = if str_eq named "" then rows else erase named rows

abbrev pub blocked : State → String
blocked on_hold = "blocked"
blocked _ = "active"

-- the row of the station that a unit is at
abbrev pub station_row : UnitWorkflow → Time → StationHealthView
station_row wf seen = record {
  station_id = wf.current_station_id;
  active_unit_id = wf.unit_id;
  last_heartbeat_at = seen;
  current_status = blocked wf.state;
  open_incident_count = if str_eq wf.open_incident_id "" then 0 else 1;
  retry_count_last_hour = elim (lookup "test" wf.attempt_count_by_station) [
    | none ↦ 0
    | some n ↦ n
  ];
}

-- Only the row of the station that the unit is at is written.
abbrev pub StationsAfter : Bool → UnitWorkflow → Memory → Memory → Type 0
StationsAfter true wf m m' = m'.station_views ≡ m.station_views
StationsAfter false wf m m' =
    (seen : Time) × (m'.station_views
      ≡ insert wf.current_station_id (station_row wf seen) m.station_views)
