-- ===== src/Http/Keeps.antt =====
-- What a request to the server of internal/httpapi/server.go keeps of the state, where the runtime
-- keeps it.
use forge_mini.Base.{ℕ, String, List, [], ◌∷◌, str_eq, Bool-cases, inl, inr}
use forge_mini.Base.Errors.{Result-cases}
use forge_mini.Base.Machine.{Time}
use forge_mini.Base.Preserves.{Preserves, bind-Preserves}
use forge_mini.Signals.{OperationalSignal}
use forge_mini.Workflow.Decisions.{TimerPayload}
use forge_mini.Orchestration.{Runtime}
use forge_mini.App.System.{System, time_now}
use forge_mini.Http.{Decoder, Request, Response}
use forge_mini.Http.Paths.{trim_prefix, split_slash}
use forge_mini.Http.Handlers.{
  handle_signal, handle_timer, handle_unit, unit_parts, handle_unit_routes, handle_incidents,
  handle_stations, handle_units_by_state, handle_triage_unit, handle_timers, handle_scenario_list,
  scenario_unit, handle_scenario_run,
}
use forge_mini.Http.Routes.{
  Endpoint, signals, timers_in, units, incidents, stations, unit_list, triage, timers_out,
  scenarios, scenario_run, Found, endpoint, redirect, other_method, nothing, find, routes, handler,
  respond, serve, serve_all,
}

-- every method of the runtime keeps `P`, and so does a reading of the clock
pub record RuntimeKeeps {K : Type 0} (clock : ℕ → Time) (runtime : Runtime (System K))
    (P : System K → Type 0) : Type 0 where
  pub clocked : Preserves P (time_now clock)
  pub signalled : (signal : OperationalSignal) → Preserves P (runtime.handle_signal signal)
  pub fired : (timer : TimerPayload) → Preserves P (runtime.handle_timer timer)
  pub ran : (name unit : String) → Preserves P (runtime.run_scenario name unit)
  pub read : (unit : String) → Preserves P (runtime.get_workflow unit)

module _ {K : Type 0} (decoder : Decoder) (clock : ℕ → Time) (runtime : Runtime (System K))
    (P : System K → Type 0) (keeps : RuntimeKeeps clock runtime P) where
  abbrev Kept : (System K → Response × System K) → Type 0
  Kept h = (s : System K) → P s → P (h s).1

  handle_signal-Kept : (request : Request) → Kept (handle_signal decoder clock runtime request)
  unfolding handle_signal
  handle_signal-Kept request s p = elim (Result-cases (decoder.decode_signal request.body)) [
    | inl (signal, e) ↦ rw (e, handle_signal) (keeps.signalled signal s p)
    | inr (x, e) ↦ rw (e, handle_signal) p
  ]

  handle_timer-Kept : (request : Request) → Kept (handle_timer decoder clock runtime request)
  unfolding handle_timer
  handle_timer-Kept request s p = elim (Result-cases (decoder.decode_timer request.body)) [
    | inl (timer, e) ↦ rw (e, handle_timer) (keeps.fired timer s p)
    | inr (x, e) ↦ rw (e, handle_timer) p
  ]

  unit_parts-Kept : (parts : List String) → Kept (unit_parts decoder clock runtime parts)
  unfolding unit_parts handle_unit
  unit_parts-Kept [] s p = p
  unit_parts-Kept (unit ∷ []) s p = keeps.read unit s p
  unit_parts-Kept (unit ∷ last ∷ []) s p = elim (Bool-cases (str_eq last "timeline")) [
    | inl e ↦ rw (e, unit_parts) p
    | inr e ↦ rw (e, unit_parts) p
  ]
  unit_parts-Kept (unit ∷ x ∷ y ∷ rest) s p = p

  scenario_unit-Preserves :
      (name given : String) → Preserves P (scenario_unit decoder clock runtime name given)
  unfolding scenario_unit
  scenario_unit-Preserves name given s p = elim (Bool-cases (str_eq given "")) [
    | inl e ↦ rw (e, scenario_unit) (keeps.clocked s p)
    | inr e ↦ rw (e, scenario_unit) p
  ]

  handle_scenario_run-Kept :
      (request : Request) → Kept (handle_scenario_run decoder clock runtime request)
  unfolding handle_scenario_run
  handle_scenario_run-Kept request s p =
      let name = trim_prefix request.path "/api/demo/scenarios/" in
      bind-Preserves P (scenario_unit decoder clock runtime name (request.query "unit_id"))
        (λ unit. runtime.run_scenario name unit)
        (scenario_unit-Preserves name (request.query "unit_id")) (λ unit. keeps.ran name unit) s p

  handler-Kept : (e : Endpoint) (request : Request) → Kept (handler decoder clock runtime e request)
  unfolding handler handle_unit_routes handle_incidents handle_stations handle_units_by_state
      handle_triage_unit handle_timers handle_scenario_list
  handler-Kept signals request s p = handle_signal-Kept request s p
  handler-Kept timers_in request s p = handle_timer-Kept request s p
  handler-Kept units request s p =
      unit_parts-Kept (split_slash (trim_prefix request.path "/api/units/")) s p
  handler-Kept incidents request s p = p
  handler-Kept stations request s p = p
  handler-Kept unit_list request s p = p
  handler-Kept triage request s p = p
  handler-Kept timers_out request s p = p
  handler-Kept scenarios request s p = p
  handler-Kept scenario_run request s p = handle_scenario_run-Kept request s p

  respond-Kept : (f : Found) (request : Request) → Kept (respond decoder clock runtime f request)
  unfolding respond
  respond-Kept (endpoint e) request s p = handler-Kept e request s p
  respond-Kept redirect request s p = p
  respond-Kept other_method request s p = p
  respond-Kept nothing request s p = p

  pub serve-Kept : (request : Request) → Kept (serve decoder clock runtime request)
  unfolding serve
  serve-Kept request s p = respond-Kept (find request.method request.path routes) request s p

  pub serve_all-Kept :
      (requests : List Request) (s : System K)
      → P s
      → P (serve_all decoder clock runtime requests s)
  unfolding serve_all
  serve_all-Kept [] s p = p
  serve_all-Kept (request ∷ rest) s p = serve_all-Kept rest _ (serve-Kept request s p)
