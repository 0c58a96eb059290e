-- ===== src/Http/Handlers.antt =====
-- The handlers of internal/httpapi/server.go.
use forge_mini.Base.{ℕ, String, concat, List, [], ◌∷◌, str_eq, if◌then◌else◌}
use forge_mini.Base.Errors.{ok, err}
use forge_mini.Base.Machine.{Time, unix_nano, show_int}
use forge_mini.Base.Action.{ActionOn, ◌>>=◌, pure}
use forge_mini.Sim.{scenario_names}
use forge_mini.Orchestration.{Runtime}
use forge_mini.Store.{list_incident_views, list_station_health, list_units_by_state, list_timers}
use forge_mini.App.System.{System, time_now}
use forge_mini.Http.{
  Decoder, Request, Response, handled, of_unit, of_incidents, of_stations, of_units, of_triage,
  of_timers, of_names, of_run, failed, write_json, reply, missing_status, internal, bad_request,
  triage_of, reading, calling, timeline, not_found_page,
}
use forge_mini.Http.Paths.{trim_prefix, split_slash}

module _ {K : Type 0} (decoder : Decoder) (clock : ℕ → Time) (runtime : Runtime (System K)) where
  -- `handleSignal`
  unfoldable pub handle_signal : Request → System K → Response × System K
  unfolding reply
  handle_signal request s = elim (decoder.decode_signal request.body) [
    | err e ↦ (write_json 400 (failed e), s)
    | ok signal ↦ calling internal handled (runtime.handle_signal signal) s
  ]

  -- `handleTimer`
  unfoldable pub handle_timer : Request → System K → Response × System K
  unfolding reply
  handle_timer request s = elim (decoder.decode_timer request.body) [
    | err e ↦ (write_json 400 (failed e), s)
    | ok timer ↦ calling internal handled (runtime.handle_timer timer) s
  ]

  -- `handleUnit`
  unfoldable pub handle_unit : String → System K → Response × System K
  unfolding reply missing_status
  handle_unit unit = calling missing_status of_unit (runtime.get_workflow unit)

  -- the tests of `handleUnitRoutes` on the parts of the path
  unfoldable pub unit_parts : List String → System K → Response × System K
  unfolding handle_unit timeline
  unit_parts (unit ∷ []) = handle_unit unit
  unit_parts (unit ∷ last ∷ []) =
      if str_eq last "timeline" then reading (timeline unit) else reading (λ m. not_found_page)
  unit_parts _ = reading (λ m. not_found_page)

  -- `handleUnitRoutes`
  unfoldable pub handle_unit_routes : Request → System K → Response × System K
  unfolding unit_parts trim_prefix split_slash
  handle_unit_routes request = unit_parts (split_slash (trim_prefix request.path "/api/units/"))

  -- `handleIncidents`, `handleStations`, `handleUnitsByState`, `handleTimers`: the store returns no
  -- error
  unfoldable pub handle_incidents : Request → System K → Response × System K
  handle_incidents request = reading (λ m. write_json 200 (of_incidents (list_incident_views m)))

  unfoldable pub handle_stations : Request → System K → Response × System K
  handle_stations request = reading (λ m. write_json 200 (of_stations (list_station_health m)))

  unfoldable pub handle_units_by_state : Request → System K → Response × System K
  handle_units_by_state request =
      reading (λ m. write_json 200 (of_units (list_units_by_state (request.query "state") m)))

  unfoldable pub handle_timers : Request → System K → Response × System K
  handle_timers request = reading (λ m. write_json 200 (of_timers (list_timers m)))

  -- `handleTriageUnit`
  unfoldable pub handle_triage_unit : Request → System K → Response × System K
  unfolding reply trim_prefix
  handle_triage_unit request =
      reading (λ m.
        reply internal of_triage (triage_of m (trim_prefix request.path "/api/triage/units/")))

  -- `handleScenarioList`
  unfoldable pub handle_scenario_list : Request → System K → Response × System K
  unfolding scenario_names
  handle_scenario_list request = reading (λ m. write_json 200 (of_names scenario_names))

  -- the identifier of the unit of a scenario, made of its name and the time where none is given
  unfoldable pub scenario_unit : String → String → ActionOn (System K) String
  unfolding unix_nano show_int
  scenario_unit name given s =
      if str_eq given ""
      then (do t ← time_now clock; pure (concat name (concat "-" (show_int (unix_nano t))))) s
      else (ok given, s)

  -- `handleScenarioRun`
  unfoldable pub handle_scenario_run : Request → System K → Response × System K
  unfolding reply scenario_unit trim_prefix
  handle_scenario_run request = calling bad_request of_run (do
    let name = trim_prefix request.path "/api/demo/scenarios/"
    unit ← scenario_unit name (request.query "unit_id")
    runtime.run_scenario name unit)
