-- ===== src/Store.antt =====
-- internal/store/memory.go: the maps of `Memory` and its methods. A method returns what it reads,
-- or the new store. The mutex is left out: a call is one step.
pub mod Reads
use forge_mini.Base.{
  String, Bool, true, false, ◌||◌, Option, none, some, List, [], ◌∷◌, ◌++◌, str_eq, if◌then◌else◌,
}
use forge_mini.Base.Dict.{Dict, lookup, insert, erase, values}
use forge_mini.Base.Errors.{not_found, Result, ok, err}
use forge_mini.Base.Machine.{Time}
use forge_mini.Signals.{OperationalSignal}
use forge_mini.Incidents.{Incident, zero_incident, is_resolved}
use forge_mini.Projections.{UnitStatusView, IncidentDashboardItem, StationHealthView}
use forge_mini.Workflow.State.{UnitWorkflow}
use forge_mini.Workflow.Decisions.{WorkflowDecision, TimerPayload}

-- `Memory`
pub record Memory : Type 0 where
  pub signals_by_id : Dict OperationalSignal
  pub signals_by_unit : Dict (List OperationalSignal)
  pub decisions_by_workflow : Dict (List WorkflowDecision)
  pub workflows_by_unit : Dict UnitWorkflow
  pub incidents_by_id : Dict Incident
  pub open_incident_by_unit : Dict String
  pub unit_views : Dict UnitStatusView
  pub incident_views : Dict IncidentDashboardItem
  pub station_views : Dict StationHealthView
  pub timers_by_key : Dict TimerPayload

-- `NewMemory`
abbrev pub new_memory : Memory
new_memory = record {
  signals_by_id = [];
  signals_by_unit = [];
  decisions_by_workflow = [];
  workflows_by_unit = [];
  incidents_by_id = [];
  open_incident_by_unit = [];
  unit_views = [];
  incident_views = [];
  station_views = [];
  timers_by_key = [];
}

-- `m[k]` on a map of slices: nil where the key is missing
unfoldable pub list_at {ℓ} : {A : Type ℓ} → String → Dict (List A) → List A
unfolding lookup
list_at k m = elim (lookup k m) [ none ↦ [] | some l ↦ l ]

-- `v, ok := m[k]` followed by `return …, ErrNotFound` where it is not there
unfoldable pub found {ℓ} : {A : Type ℓ} → Option A → Result A
found none = err not_found
found (some a) = ok a

-- `AppendSignal`
unfoldable pub append_signal : OperationalSignal → Memory → Memory
unfolding insert list_at
append_signal signal m = record m {
  signals_by_id = insert signal.id signal m.signals_by_id;
  signals_by_unit =
      insert signal.unit_id (list_at signal.unit_id m.signals_by_unit ++ (signal ∷ []))
        m.signals_by_unit;
}

-- `SignalExists`
unfoldable pub signal_exists : String → Memory → Bool
unfolding lookup
signal_exists id m = elim (lookup id m.signals_by_id) [ none ↦ false | some _ ↦ true ]

-- `ListSignalsByUnit`
unfoldable pub list_signals_by_unit : String → Memory → List OperationalSignal
unfolding list_at
list_signals_by_unit unit m = list_at unit m.signals_by_unit

-- `AppendDecision`
unfoldable pub append_decision : WorkflowDecision → Memory → Memory
unfolding insert list_at
append_decision d m = record m {
  decisions_by_workflow =
      insert d.workflow_id (list_at d.workflow_id m.decisions_by_workflow ++ (d ∷ []))
        m.decisions_by_workflow;
}

-- `ListDecisionsByWorkflow`
unfoldable pub list_decisions_by_workflow : String → Memory → List WorkflowDecision
unfolding list_at
list_decisions_by_workflow workflow m = list_at workflow m.decisions_by_workflow

-- `GetWorkflow`
unfoldable pub get_workflow : String → Memory → Result UnitWorkflow
unfolding lookup found
get_workflow unit m = found (lookup unit m.workflows_by_unit)

-- `PutWorkflow`
unfoldable pub put_workflow : UnitWorkflow → Memory → Memory
unfolding insert
put_workflow wf m = record m { workflows_by_unit = insert wf.unit_id wf m.workflows_by_unit }

-- `ListWorkflows`
unfoldable pub list_workflows : Memory → List UnitWorkflow
unfolding values
list_workflows m = values m.workflows_by_unit

-- the incident of an identifier, the zero value where there is none
unfoldable pub incident_or_zero : Option Incident → Incident
incident_or_zero none = zero_incident
incident_or_zero (some incident) = incident

-- `GetOpenIncidentByUnit`; nil is `none`
unfoldable pub get_open_incident_by_unit : String → Memory → Option Incident
unfolding lookup incident_or_zero
get_open_incident_by_unit unit m = elim (lookup unit m.open_incident_by_unit) [
  | none ↦ none
  | some id ↦ some (incident_or_zero (lookup id m.incidents_by_id))
]

-- `PutIncident`
unfoldable pub put_incident : Incident → Memory → Memory
unfolding insert erase is_resolved
put_incident incident m = record m {
  incidents_by_id = insert incident.id incident m.incidents_by_id;
  open_incident_by_unit =
      if is_resolved incident.status
      then erase incident.unit_id m.open_incident_by_unit
      else insert incident.unit_id incident.id m.open_incident_by_unit;
}

-- `GetIncidentByID`
unfoldable pub get_incident_by_id : String → Memory → Result Incident
unfolding lookup found
get_incident_by_id id m = found (lookup id m.incidents_by_id)

open_only : List Incident → List Incident
unfolding is_resolved
open_only [] = []
open_only (i ∷ rest) = let kept = open_only rest in if is_resolved i.status then kept else i ∷ kept

-- `ListOpenIncidents`
unfoldable pub list_open_incidents : Memory → List Incident
unfolding values open_only
list_open_incidents m = open_only (values m.incidents_by_id)

-- `PutUnitStatus`
unfoldable pub put_unit_status : UnitStatusView → Memory → Memory
unfolding insert
put_unit_status view m = record m { unit_views = insert view.unit_id view m.unit_views }

-- `GetUnitStatus`
unfoldable pub get_unit_status : String → Memory → Result UnitStatusView
unfolding lookup found
get_unit_status unit m = found (lookup unit m.unit_views)

in_state : String → List UnitStatusView → List UnitStatusView
in_state state [] = []
in_state state (v ∷ rest) =
    let kept = in_state state rest in
    if str_eq state "" || str_eq v.workflow_state state then v ∷ kept else kept

-- `ListUnitsByState`
unfoldable pub list_units_by_state : String → Memory → List UnitStatusView
unfolding values in_state
list_units_by_state state m = in_state state (values m.unit_views)

-- `PutIncidentView`
unfoldable pub put_incident_view : IncidentDashboardItem → Memory → Memory
unfolding insert
put_incident_view view m = record m {
  incident_views = insert view.incident_id view m.incident_views;
}

-- `DeleteIncidentView`
unfoldable pub delete_incident_view : String → Memory → Memory
unfolding erase
delete_incident_view id m = record m { incident_views = erase id m.incident_views }

-- `ListIncidentViews`
unfoldable pub list_incident_views : Memory → List IncidentDashboardItem
unfolding values
list_incident_views m = values m.incident_views

-- `PutStationHealth`
unfoldable pub put_station_health : StationHealthView → Memory → Memory
unfolding insert
put_station_health view m = record m { station_views = insert view.station_id view m.station_views }

-- `ListStationHealth`
unfoldable pub list_station_health : Memory → List StationHealthView
unfolding values
list_station_health m = values m.station_views

-- `PutTimer`
unfoldable pub put_timer : TimerPayload → Memory → Memory
unfolding insert
put_timer payload m = record m { timers_by_key = insert payload.key payload m.timers_by_key }

-- `DeleteTimer`
unfoldable pub delete_timer : String → Memory → Memory
unfolding erase
delete_timer key m = record m { timers_by_key = erase key m.timers_by_key }

-- `GetTimer`
unfoldable pub get_timer : String → Memory → Result TimerPayload
unfolding lookup found
get_timer key m = found (lookup key m.timers_by_key)

-- `ListTimers`
unfoldable pub list_timers : Memory → List TimerPayload
unfolding values
list_timers m = values m.timers_by_key

-- `Schedule`
unfoldable pub schedule : String → Time → TimerPayload → Memory → Memory
unfolding put_timer
schedule key fire_at payload = put_timer (record payload { key = key; fire_at = fire_at })

-- `Cancel`
unfoldable pub cancel : String → Memory → Memory
unfolding delete_timer
cancel = delete_timer
