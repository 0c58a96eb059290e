-- ===== src/Http.antt =====
-- internal/httpapi/server.go. A response is its status and the value that `writeJSON` encodes; the JSON
-- text and the header are left out. Requests are decoded by encoding/json, a parameter here.
pub mod Paths
pub mod Handlers
pub mod Routes
pub mod Splitting
pub mod ReadOnly
pub mod Units
pub mod Statuses
pub mod Keeps
pub mod InOrder
use forge_mini.Base.{
  ℕ, String, concat, Bool, true, false, ◌||◌, Option, none, some, List, [], ◌∷◌, str_eq,
  if◌then◌else◌,
}
use forge_mini.Base.Errors.{Error, is_not_found, Result, ok, err}
use forge_mini.Base.Machine.{Time, unix_nano, show_int}
use forge_mini.Base.Action.{ActionOn}
use forge_mini.Signals.{OperationalSignal}
use forge_mini.Projections.{UnitStatusView, IncidentDashboardItem, StationHealthView}
use forge_mini.Workflow.State.{UnitWorkflow}
use forge_mini.Workflow.Decisions.{WorkflowDecision, TimerPayload, HandleResult}
use forge_mini.Sim.{scenario_names}
use forge_mini.Triage.{
  Recommendation, IncidentReader, WorkflowReader, summarize_unit, zero_recommendation,
}
use forge_mini.Orchestration.{ScenarioRunResult, Runtime}
use forge_mini.Store.{
  Memory, get_workflow, get_open_incident_by_unit, list_signals_by_unit, list_decisions_by_workflow,
  list_incident_views, list_station_health, list_units_by_state, list_timers,
}
use forge_mini.App.System.{System, time_now}
use forge_mini.Http.Paths.{trim_prefix, split_slash}

-- The calls of `json.NewDecoder(r.Body).Decode`.
pub record Decoder : Type 0 where
  pub decode_signal : String → Result OperationalSignal
  pub decode_timer : String → Result TimerPayload

-- What the handlers read of a request; `path` is `r.URL.Path`, and `query` is `r.URL.Query().Get`.
pub record Request : Type 0 where
  pub method : String
  pub path : String
  pub query : String → String
  pub body : String

-- the value that `handleTimeline` writes
pub record Timeline : Type 0 where
  pub signals : List OperationalSignal
  pub decisions : List WorkflowDecision
  pub triage_recommendation : Recommendation

-- What a handler writes: `failed` is the map with the key "error", and the last three are plain texts
-- that net/http writes.
pub data Body : Type 0 where
  failed : Error → Body
  handled : HandleResult → Body
  of_unit : UnitWorkflow → Body
  of_timeline : Timeline → Body
  of_incidents : List IncidentDashboardItem → Body
  of_stations : List StationHealthView → Body
  of_units : List UnitStatusView → Body
  of_triage : Recommendation → Body
  of_timers : List TimerPayload → Body
  of_names : List String → Body
  of_run : ScenarioRunResult → Body
  page_not_found method_not_allowed : Body
  moved_to : String → Body

pub record Response : Type 0 where
  pub status : ℕ
  pub body : Body

-- `writeJSON`
abbrev pub write_json : ℕ → Body → Response
write_json status body = record { status = status; body = body }

-- the two ends of a handler: the error with its status, or the value with 200
unfoldable pub reply {ℓ} : {A : Type ℓ} → (Error → ℕ) → (A → Body) → Result A → Response
reply status body (ok a) = write_json 200 (body a)
reply status body (err e) = write_json (status e) (failed e)

-- the status of an error of `GetWorkflow`
unfoldable pub missing_status : Error → ℕ
unfolding is_not_found
missing_status e = if is_not_found e then 404 else 500

abbrev pub internal : Error → ℕ
internal e = 500

abbrev pub bad_request : Error → ℕ
bad_request e = 400

-- the two interfaces of triage, which the store fills
abbrev pub incidents_of : Memory → IncidentReader
incidents_of m = record {
  get_open_incident_by_unit = λ unit. ok (get_open_incident_by_unit unit m);
}

abbrev pub workflows_of : Memory → WorkflowReader
workflows_of m = record { get_workflow = λ unit. get_workflow unit m }

abbrev pub triage_of : Memory → String → Result Recommendation
triage_of m unit = summarize_unit (incidents_of m) (workflows_of m) unit

-- the value of a call whose error is dropped
unfoldable pub triage_or_zero : Result Recommendation → Recommendation
triage_or_zero (ok r) = r
triage_or_zero (err e) = zero_recommendation

module _ {K : Type 0} where
  -- a handler that only reads the store
  abbrev pub reading : (Memory → Response) → System K → Response × System K
  reading f s = (f s.world.memory, s)

  -- a handler that calls the runtime
  abbrev pub calling {ℓ} :
      {A : Type ℓ}
      → (Error → ℕ)
      → (A → Body)
      → ActionOn (System K) A
      → System K
      → Response × System K
  calling status body m s = let (r, s') = m s in (reply status body r, s')

-- `handleTimeline`
unfoldable pub timeline : String → Memory → Response
unfolding missing_status triage_or_zero
timeline unit m = elim (get_workflow unit m) [
  | err e ↦ write_json (missing_status e) (failed e)
  | ok wf ↦ write_json 200 (
      of_timeline (record {
        signals = list_signals_by_unit unit m;
        decisions = list_decisions_by_workflow wf.workflow_id m;
        triage_recommendation = triage_or_zero (triage_of m unit);
      }))
]

-- `http.NotFound`
abbrev pub not_found_page : Response
not_found_page = write_json 404 page_not_found
