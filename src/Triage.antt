-- ===== src/Triage.antt =====
-- internal/triage/service.go: a summary of a unit for a person.
pub mod Agrees
use forge_mini.Base.{String, concat, Option, none, some, str_eq, if◌then◌else◌}
use forge_mini.Base.Errors.{Result, ok, ◌>>=◌}
use forge_mini.Incidents.{Incident}
use forge_mini.Workflow.State.{UnitWorkflow, state_text}

-- the interface `IncidentReader`; nil is `none`
pub record IncidentReader : Type 0 where
  pub get_open_incident_by_unit : String → Result (Option Incident)

-- the interface `WorkflowReader`
pub record WorkflowReader : Type 0 where
  pub get_workflow : String → Result UnitWorkflow

-- `Recommendation`
pub record Recommendation : Type 0 where
  pub summary : String
  pub likely_cause : String
  pub recommended_action : String

-- `Recommendation{}`
abbrev pub zero_recommendation : Recommendation
zero_recommendation = record { summary = ""; likely_cause = ""; recommended_action = "" }

-- `summarizeIncident`
unfoldable pub summarize_incident : Incident → Recommendation
summarize_incident incident =
    if str_eq incident.category "test_flake"
    then record {
      summary = "the unit saw a flaky test infrastructure failure and entered retry flow";
      likely_cause = "fixture or communications instability";
      recommended_action = "retry_test";
    }
    else if str_eq incident.category "repeated_failure"
    then record {
      summary = "the unit failed repeatedly and was placed on hold";
      likely_cause = "repeat failure after retry budget exhausted";
      recommended_action = "route_to_rework";
    }
    else if str_eq incident.category "heartbeat_timeout"
    then record {
      summary = "the active station stopped sending expected signals";
      likely_cause = "station outage or stale workflow state";
      recommended_action = "investigate_station";
    }
    else record {
      summary = incident.summary;
      likely_cause = incident.category;
      recommended_action = incident.recommended_action;
    }

-- the branch for a unit with no open incident
unfoldable pub summarize_workflow : String → UnitWorkflow → Recommendation
unfolding state_text
summarize_workflow unit wf = record {
  summary = concat "unit " (concat unit (concat " is currently in state " (state_text wf.state)));
  likely_cause = "no active incident";
  recommended_action = "continue workflow";
}

module _ (incidents : IncidentReader) (workflows : WorkflowReader) where
  -- `SummarizeUnit`
  unfoldable pub summarize_unit : String → Result Recommendation
  unfolding summarize_workflow summarize_incident
  summarize_unit unit = do
    incident ← incidents.get_open_incident_by_unit unit
    elim incident [
      | none ↦ do wf ← workflows.get_workflow unit; ok (summarize_workflow unit wf)
      | some i ↦ ok (summarize_incident i)
    ]
