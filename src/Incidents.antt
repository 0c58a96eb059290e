-- ===== src/Incidents.antt =====
-- internal/incidents/types.go: what is recorded of a failure that a person looks at.
use forge_mini.Base.{String, Bool, true, false}
use forge_mini.Base.Machine.{Time}

-- `Status`; `no_status` is the zero value, the empty text.
pub data Status : Type 0 where
  no_status open_status escalated resolved : Status

-- `string(incident.Status)`
unfoldable pub status_text : Status → String
status_text no_status = ""
status_text open_status = "open"
status_text escalated = "escalated"
status_text resolved = "resolved"

-- `Incident`
pub record Incident : Type 0 where
  pub id : String
  pub unit_id : String
  pub workflow_id : String
  pub station_id : String
  pub status : Status
  pub category : String
  pub severity : String
  pub opened_at : Time
  pub last_updated_at : Time
  pub recommended_action : String
  pub assigned_to : String
  pub summary : String

-- the zero value of `Incident`
abbrev pub zero_incident : Incident
zero_incident = record {
  id = "";
  unit_id = "";
  workflow_id = "";
  station_id = "";
  status = no_status;
  category = "";
  severity = "";
  opened_at = 0;
  last_updated_at = 0;
  recommended_action = "";
  assigned_to = "";
  summary = "";
}

-- `incident.Status == StatusResolved`
unfoldable pub is_resolved : Status → Bool
is_resolved resolved = true
is_resolved _ = false
