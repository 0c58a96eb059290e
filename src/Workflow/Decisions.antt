-- ===== src/Workflow/Decisions.antt =====
-- internal/workflow/decisions.go and the constructors of decisions in internal/workflow/engine.go.
use forge_mini.Base.{String, concat, List, [], ◌∷◌, Bool}
use forge_mini.Base.Dict.{Dict}
use forge_mini.Base.Machine.{Time, unix_nano, show_int}
use forge_mini.Workflow.State.{State, state_text, TimerType, UnitWorkflow}

-- `DecisionType`
pub data DecisionType : Type 0 where
  accept_signal reject_signal transition_state schedule_timer cancel_timer : DecisionType
  start_retry escalate place_hold route_to_rework complete_incident : DecisionType

unfoldable pub decision_text : DecisionType → String
decision_text accept_signal = "accept_signal"
decision_text reject_signal = "reject_signal"
decision_text transition_state = "transition_state"
decision_text schedule_timer = "schedule_timer"
decision_text cancel_timer = "cancel_timer"
decision_text start_retry = "start_retry"
decision_text escalate = "escalate"
decision_text place_hold = "place_hold"
decision_text route_to_rework = "route_to_rework"
decision_text complete_incident = "complete_incident"

-- `WorkflowDecision`; the metadata hold texts only.
pub record WorkflowDecision : Type 0 where
  pub id : String
  pub workflow_id : String
  pub unit_id : String
  pub decision_type : DecisionType
  pub reason_code : String
  pub summary : String
  pub triggered_by : String
  pub at : Time
  pub metadata : Dict String

-- `TimerPayload`
pub record TimerPayload : Type 0 where
  pub key : String
  pub workflow_id : String
  pub unit_id : String
  pub timer_type : TimerType
  pub station_id : String
  pub fire_at : Time

-- `TimerRequest`
pub record TimerRequest : Type 0 where
  pub key : String
  pub timer_type : TimerType
  pub station_id : String
  pub fire_at : Time

-- `HandleResult`
pub record HandleResult : Type 0 where
  pub accepted : Bool
  pub workflow_state : String
  pub decision_ids : List String
  pub incident_id : String

-- `IncidentActionType`; `unset` is the zero value, the empty text.
pub data IncidentActionType : Type 0 where
  unset none_action upsert close : IncidentActionType

-- `IncidentAction`
pub record IncidentAction : Type 0 where
  pub type : IncidentActionType
  pub category : String
  pub severity : String
  pub summary : String
  pub recommended_action : String
  pub station_id : String

-- the zero value of `IncidentAction`
abbrev pub no_action : IncidentAction
no_action = record {
  type = unset;
  category = "";
  severity = "";
  summary = "";
  recommended_action = "";
  station_id = "";
}

-- `TransitionResult`
pub record TransitionResult : Type 0 where
  pub next_workflow : UnitWorkflow
  pub decisions : List WorkflowDecision
  pub incident_action : IncidentAction
  pub timers_to_start : List TimerRequest
  pub timers_to_cancel : List String

-- `newDecision`
unfoldable pub new_decision :
    UnitWorkflow → DecisionType → String → String → String → Time → WorkflowDecision
unfolding unix_nano show_int decision_text
new_decision wf kind reason summary triggered_by now = record {
  id = concat "dec-" (concat (show_int (unix_nano now)) (concat "-" (decision_text kind)));
  workflow_id = wf.workflow_id;
  unit_id = wf.unit_id;
  decision_type = kind;
  reason_code = reason;
  summary = summary;
  triggered_by = triggered_by;
  at = now;
  metadata = [];
}

-- `transitionDecision`
unfoldable pub transition_decision : UnitWorkflow → State → Time → WorkflowDecision
unfolding unix_nano show_int state_text
transition_decision wf next_state now = record {
  id = concat "dec-" (concat (show_int (unix_nano now)) "-transition");
  workflow_id = wf.workflow_id;
  unit_id = wf.unit_id;
  decision_type = transition_state;
  reason_code = "valid_transition";
  summary = state_text next_state;
  triggered_by = "orchestrator";
  at = now;
  metadata = ("next_state", state_text next_state) ∷ [];
}
