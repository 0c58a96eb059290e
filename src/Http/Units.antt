-- ===== src/Http/Units.antt =====
-- The paths of units in internal/httpapi/server.go, and what is served under them.
use forge_mini.Base.{
  ℕ, String, concat, ◌≡◌, refl, inl, inr, ap, List, [], Option, none, some, Option-cases,
}
use forge_mini.Base.Dict.{Dict, lookup}
use forge_mini.Incidents.{Incident}
use forge_mini.Triage.{Recommendation, summarize_incident, summarize_workflow, summarize_unit}
use forge_mini.Base.Errors.{not_found, Result, ok, err, is_not_found}
use forge_mini.Base.Machine.{Time}
use forge_mini.Signals.{Codec}
use forge_mini.Workflow.State.{UnitWorkflow, state_text}
use forge_mini.Orchestration.{Runtime}
use forge_mini.Store.{
  Memory, get_workflow, get_open_incident_by_unit, found, list_at, list_signals_by_unit,
  list_decisions_by_workflow,
}
use forge_mini.Store.Reads.{get_workflow-cases, read_open, get_open-read_open}
use forge_mini.App.System.{System}
use forge_mini.App.Container.{service_runtime}
use forge_mini.App.Service.{workflow_of}
use forge_mini.Http.{
  Decoder, Request, Response, of_unit, failed, write_json, reply, missing_status, timeline,
  of_timeline, triage_or_zero, triage_of,
}
use forge_mini.Http.Paths.{push_first, split_slash}
use forge_mini.Http.Splitting.{
  HasNoSlash, behind-concat, trim_prefix-concat, split_slash-one, split_slash-two, behind-diverge,
  str_eq-diverge,
}
use forge_mini.Http.Routes.{
  endpoint, units, find, routes, method_matches, path_matches, lacks_slash, prefer, is_some, serve,
  respond, handler,
}
use forge_mini.Http.Handlers.{handle_unit, unit_parts, handle_unit_routes}

-- A GET below "/api/units/" is for `handleUnitRoutes`.
find-units : (rest : String) → find "GET" (concat "/api/units/" rest) routes ≡ endpoint units
unfolding find routes method_matches path_matches lacks_slash prefer is_some
find-units rest =
    simp
      (
        str_eq-diverge "/api/signals" "/api/units/" rest,
        str_eq-diverge "/api/timers" "/api/units/" rest,
        behind-concat "/api/units/" rest,
        str_eq-diverge "/api/dashboard/incidents" "/api/units/" rest,
        str_eq-diverge "/api/dashboard/stations" "/api/units/" rest,
        str_eq-diverge "/api/dashboard/units" "/api/units/" rest,
        behind-diverge "/api/triage/units/" "/api/units/" rest,
        str_eq-diverge "/api/demo/scenarios" "/api/units/" rest,
        behind-diverge "/api/demo/scenarios/" "/api/units/" rest,
      )
      refl

-- a GET of a path
abbrev pub getting : String → Request
getting path = record { method = "GET"; path = path; query = λ name. ""; body = "" }

-- what is served for a unit: its snapshot, or the error that it is not there
abbrev pub unit_response : Result UnitWorkflow → Response
unit_response (ok wf) = write_json 200 (of_unit wf)
unit_response (err e) = write_json 404 (failed not_found)

-- what is stored under a key, nothing where the key is not there
abbrev pub all_of {ℓ} : {A : Type ℓ} → Option (List A) → List A
all_of none = []
all_of (some l) = l

-- the recommendation for a unit: that of its open incident, or to go on where it has none
abbrev pub advice : String → UnitWorkflow → Option Incident → Recommendation
advice unit wf (some incident) = summarize_incident incident
advice unit wf none = record {
  summary = concat "unit " (concat unit (concat " is currently in state " (state_text wf.state)));
  likely_cause = "no active incident";
  recommended_action = "continue workflow";
}

-- what is served as the timeline of a unit, whose stored snapshot is given
abbrev pub timeline_response : String → Memory → Option UnitWorkflow → Response
timeline_response unit m none = write_json 404 (failed not_found)
timeline_response unit m (some wf) = write_json 200 (
    of_timeline (record {
      signals = all_of (lookup unit m.signals_by_unit);
      decisions = all_of (lookup wf.workflow_id m.decisions_by_workflow);
      triage_recommendation =
          advice unit wf (read_open (lookup unit m.open_incident_by_unit) m.incidents_by_id);
    }))

list_at-all_of :
    {A : Type 0} (key : String) (lists : Dict (List A))
    → list_at key lists ≡ all_of (lookup key lists)
unfolding list_at
list_at-all_of key lists = elim (Option-cases (lookup key lists)) [
  | inl e ↦ rw (list_at, e) refl
  | inr (l, e) ↦ rw (list_at, e) refl
]

triage-advice :
    (unit : String) (m : Memory) (wf : UnitWorkflow)
    → get_workflow unit m ≡ ok wf
    → triage_or_zero (triage_of m unit)
      ≡ advice unit wf (read_open (lookup unit m.open_incident_by_unit) m.incidents_by_id)
unfolding triage_or_zero summarize_unit summarize_workflow
triage-advice unit m wf e =
    rw (← get_open-read_open unit m) (elim (Option-cases (get_open_incident_by_unit unit m)) [
      | inl q ↦ rw (summarize_unit, q, e) refl
      | inr (i, q) ↦ rw (summarize_unit, q) refl
    ])

known_timeline :
    (unit : String) (m : Memory) (wf : UnitWorkflow)
    → get_workflow unit m ≡ ok wf
    → timeline unit m ≡ timeline_response unit m (some wf)
unfolding timeline list_signals_by_unit list_decisions_by_workflow
known_timeline unit m wf e =
    rw (timeline, e, triage-advice unit m wf e, list_signals_by_unit, list_decisions_by_workflow)
      (rw
        (
          list_at-all_of unit m.signals_by_unit,
          list_at-all_of wf.workflow_id m.decisions_by_workflow,
        )
        refl)

missing_timeline :
    (unit : String) (m : Memory)
    → get_workflow unit m ≡ err not_found
    → timeline unit m ≡ write_json 404 (failed not_found)
unfolding timeline missing_status is_not_found
missing_timeline unit m e = rw (timeline, e) refl

timeline-timeline_response :
    (unit : String) (m : Memory)
    → timeline unit m ≡ timeline_response unit m (lookup unit m.workflows_by_unit)
unfolding get_workflow found
timeline-timeline_response unit m = elim (Option-cases (lookup unit m.workflows_by_unit)) [
  | inl e ↦ rw e (missing_timeline unit m (ap found e))
  | inr (wf, e) ↦ rw e (known_timeline unit m wf (ap found e))
]

module _ {K : Type 0} (decoder : Decoder) (clock : ℕ → Time) (runtime : Runtime (System K)) where
  serve-units :
      (rest : String) (s : System K)
      → serve decoder clock runtime (getting (concat "/api/units/" rest)) s
        ≡ unit_parts decoder clock runtime (split_slash rest) s
  unfolding serve respond handler handle_unit_routes
  serve-units rest s = rw (find-units rest, trim_prefix-concat "/api/units/" rest) refl

  -- For every runtime, store and unit whose identifier has no slash, a GET of
  -- /api/units/<unit>/timeline changes nothing. Where no snapshot of the unit is stored it is answered
  -- 404. Otherwise it is answered 200 with the signals stored for the unit, the decisions stored for
  -- the snapshot's workflow, and the recommendation for the unit's open incident, or to go on where it
  -- has none.
  pub serve-timeline :
      (unit : String) (s : System K)
      → HasNoSlash unit
      → serve decoder clock runtime
          (getting (concat "/api/units/" (concat unit (concat "/" "timeline"))))
          s
        ≡ (timeline_response unit s.world.memory (lookup unit s.world.memory.workflows_by_unit), s)
  unfolding unit_parts split_slash push_first
  serve-timeline unit s h =
      rw (serve-units (concat unit (concat "/" "timeline")) s, split_slash-two unit "timeline" h)
        (ap (λ r. (r, s)) (timeline-timeline_response unit s.world.memory))

module _ {K : Type 0} (decoder : Decoder) (json : Codec) (clock : ℕ → Time) where
  read_unit :
      (unit : String) (s : System K)
      → handle_unit decoder clock (service_runtime json clock) unit s
        ≡ (unit_response (get_workflow unit s.world.memory), s)
  unfolding handle_unit service_runtime workflow_of reply missing_status is_not_found
  read_unit unit s = elim (get_workflow-cases unit s.world.memory) [
    | inl (wf, e) ↦ rw e refl
    | inr e ↦ rw e refl
  ]

  -- For every store and unit whose identifier has no slash, a GET of /api/units/<unit> to a server with
  -- the in-process runtime is answered 200 with the unit's stored snapshot, or 404 where there is
  -- none, and changes nothing.
  pub serve_unit :
      (unit : String) (s : System K)
      → HasNoSlash unit
      → serve decoder clock (service_runtime json clock) (getting (concat "/api/units/" unit)) s
        ≡ (unit_response (get_workflow unit s.world.memory), s)
  unfolding unit_parts
  serve_unit unit s h =
      rw (serve-units decoder clock (service_runtime json clock) unit s, split_slash-one unit h)
        (read_unit unit s)
