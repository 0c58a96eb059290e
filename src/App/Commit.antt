-- ===== src/App/Commit.antt =====
-- `Service.commitTransition` of internal/app/app.go and what it calls.
use forge_mini.Base.{
  ℕ, String, concat, Bool, true, false, not, Option, none, some, List, [], ◌∷◌, map, str_eq,
  if◌then◌else◌,
}
use forge_mini.Base.Errors.{ok}
use forge_mini.Base.Machine.{Int64, Time, unix_nano, show_int}
use forge_mini.Incidents.{Incident, open_status, resolved, status_text}
use forge_mini.Projections.{UnitStatusView, IncidentDashboardItem, StationHealthView}
use forge_mini.Workflow.State.{on_hold, state_text, UnitWorkflow, attempt_at}
use forge_mini.Workflow.Decisions.{
  WorkflowDecision, decision_text, TimerRequest, HandleResult, none_action, upsert, close,
  IncidentAction, TransitionResult,
}
use forge_mini.Store.{
  Memory, append_decision, list_decisions_by_workflow, put_workflow, get_open_incident_by_unit,
  put_incident, put_unit_status, put_incident_view, delete_incident_view, put_station_health,
  schedule, cancel,
}
use forge_mini.App.Monad.{Action, ◌>>=◌, ◌>>◌, pure, gets, modify, now}

-- the loops of `commitTransition`
unfoldable pub append_decisions : List WorkflowDecision → Memory → Memory
append_decisions [] m = m
append_decisions (d ∷ ds) m = append_decisions ds (append_decision d m)

unfoldable pub cancel_all : List String → Memory → Memory
cancel_all [] m = m
cancel_all (key ∷ keys) m = cancel_all keys (cancel key m)

unfoldable pub schedule_all : UnitWorkflow → List TimerRequest → Memory → Memory
schedule_all wf [] m = m
schedule_all wf (req ∷ reqs) m = schedule_all wf reqs (
    schedule req.key req.fire_at
      (record {
        key = req.key;
        workflow_id = wf.workflow_id;
        unit_id = wf.unit_id;
        timer_type = req.timer_type;
        station_id = req.station_id;
        fire_at = 0;
      })
      m)

-- `boolToInt`
unfoldable pub bool_to_int : Bool → Int64
bool_to_int true = 1
bool_to_int false = 0

-- the type of the last decision, `""` where there is none
unfoldable pub last_decision_type : List WorkflowDecision → String
unfolding decision_text
last_decision_type [] = ""
last_decision_type (d ∷ []) = decision_text d.decision_type
last_decision_type (d ∷ e ∷ ds) = last_decision_type (e ∷ ds)

-- the `UnitStatusView` of `rebuildProjections`
unfoldable pub unit_view : UnitWorkflow → List WorkflowDecision → UnitStatusView
unfolding state_text attempt_at last_decision_type
unit_view wf decisions = record {
  unit_id = wf.unit_id;
  workflow_state = state_text wf.state;
  current_station_id = wf.current_station_id;
  active_hold_reason = wf.active_hold_reason;
  open_incident_id = wf.open_incident_id;
  retry_count = attempt_at "test" wf.attempt_count_by_station;
  last_signal_type = wf.last_signal_type;
  last_decision_type = last_decision_type decisions;
  last_updated_at = wf.updated_at;
}

-- the `IncidentDashboardItem` of `rebuildProjections`
unfoldable pub incident_view : Incident → IncidentDashboardItem
unfolding status_text
incident_view incident = record {
  incident_id = incident.id;
  unit_id = incident.unit_id;
  station_id = incident.station_id;
  status = status_text incident.status;
  category = incident.category;
  severity = incident.severity;
  recommended_action = incident.recommended_action;
  updated_at = incident.last_updated_at;
}

-- `status` in `rebuildProjections`
unfoldable pub station_status : UnitWorkflow → String
station_status wf = elim wf.state [
  | on_hold ↦ "blocked"
  | _ ↦ if str_eq wf.current_station_id "" then "idle" else "active"
]

-- the `StationHealthView` of `rebuildProjections`
unfoldable pub station_view : UnitWorkflow → Time → StationHealthView
unfolding station_status bool_to_int attempt_at
station_view wf seen = record {
  station_id = wf.current_station_id;
  active_unit_id = wf.unit_id;
  last_heartbeat_at = seen;
  current_status = station_status wf;
  open_incident_count = bool_to_int (not (str_eq wf.open_incident_id ""));
  retry_count_last_hour = attempt_at "test" wf.attempt_count_by_station;
}

-- the update of the incident views in `rebuildProjections`
unfoldable pub refresh_incident_view : UnitWorkflow → Memory → Memory
refresh_incident_view wf m = elim (get_open_incident_by_unit wf.unit_id m) [
  | some incident ↦ put_incident_view (incident_view incident) m
  | none ↦ if str_eq wf.open_incident_id "" then m else delete_incident_view wf.open_incident_id m
]

module _ (clock : ℕ → Time) where
  -- the row of the unit's station, where it is at one
  unfoldable pub record_station : UnitWorkflow → Action (Unit {0})
  record_station wf w =
      if str_eq wf.current_station_id ""
      then (ok tt, w)
      else (do seen ← now clock; modify (put_station_health (station_view wf seen))) w

  -- `rebuildProjections`
  unfoldable pub rebuild_projections : UnitWorkflow → Action (Unit {0})
  rebuild_projections wf = do
    decisions ← gets (list_decisions_by_workflow wf.workflow_id)
    modify (put_unit_status (unit_view wf decisions))
    modify (refresh_incident_view wf)
    record_station wf

  -- the `Incident` literal of `applyIncidentAction`, `existing` where there is one
  unfoldable pub open_or_new : UnitWorkflow → Option Incident → Action Incident
  unfolding unix_nano show_int
  open_or_new wf (some existing) = pure existing
  open_or_new wf none = do
    named ← now clock
    opened ← now clock
    pure (record {
      id = concat "inc-" (show_int (unix_nano named));
      unit_id = wf.unit_id;
      workflow_id = wf.workflow_id;
      station_id = "";
      status = open_status;
      category = "";
      severity = "";
      opened_at = opened;
      last_updated_at = 0;
      recommended_action = "";
      assigned_to = "";
      summary = "";
    })

  -- `case workflow.IncidentUpsert`
  unfoldable pub upsert_incident :
      UnitWorkflow → IncidentAction → Option Incident → Action (Unit {0})
  upsert_incident wf action existing = do
    incident ← open_or_new wf existing
    updated ← now clock
    modify (
        put_incident (record incident {
          station_id = action.station_id;
          status = open_status;
          category = action.category;
          severity = action.severity;
          summary = action.summary;
          recommended_action = action.recommended_action;
          last_updated_at = updated;
        }))

  -- `case workflow.IncidentClose`
  unfoldable pub close_incident : Option Incident → Action (Unit {0})
  close_incident none = pure tt
  close_incident (some existing) = do
    updated ← now clock
    modify (put_incident (record existing { status = resolved; last_updated_at = updated }))

  -- `applyIncidentAction`
  unfoldable pub apply_incident_action : UnitWorkflow → IncidentAction → Action (Unit {0})
  apply_incident_action wf action = do
    existing ← gets (get_open_incident_by_unit wf.unit_id)
    elim action.type [
      | upsert ↦ upsert_incident wf action existing
      | close ↦ close_incident existing
      | _ ↦ pure tt
    ]

  -- `if result.IncidentAction.Type != workflow.IncidentNone`
  unfoldable pub act_on_incident : UnitWorkflow → IncidentAction → Action (Unit {0})
  act_on_incident wf action = elim action.type [
    | none_action ↦ pure tt
    | _ ↦ apply_incident_action wf action
  ]

  -- where `commitTransition` sets `OpenIncidentID`
  unfoldable pub link_incident : UnitWorkflow → Option Incident → Action UnitWorkflow
  link_incident wf (some incident) = pure (record wf { open_incident_id = incident.id })
  link_incident wf none = do
    if str_eq wf.open_incident_id ""
        then pure tt
        else modify (delete_incident_view wf.open_incident_id)
    pure (record wf { open_incident_id = "" })

  -- the end of `commitTransition`: the snapshot is stored, the rows are rebuilt, the answer is given
  unfoldable pub save : TransitionResult → UnitWorkflow → Action HandleResult
  unfolding state_text
  save result wf = do
    modify (put_workflow wf)
    rebuild_projections wf
    pure (record {
      accepted = true;
      workflow_state = state_text wf.state;
      decision_ids = map (λ d. d.id) result.decisions;
      incident_id = wf.open_incident_id;
    })

  -- `commitTransition` from the lookup of the open incident on
  unfoldable pub link_and_save : String → TransitionResult → Action HandleResult
  link_and_save unit result = do
    incident ← gets (get_open_incident_by_unit unit)
    wf ← link_incident result.next_workflow incident
    save result wf

  -- `commitTransition`
  unfoldable pub commit_transition : String → TransitionResult → Action HandleResult
  commit_transition unit result = do
    modify (append_decisions result.decisions)
    modify (cancel_all result.timers_to_cancel)
    modify (schedule_all result.next_workflow result.timers_to_start)
    act_on_incident result.next_workflow result.incident_action
    link_and_save unit result
