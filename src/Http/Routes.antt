-- ===== src/Http/Routes.antt =====
-- `Server.Routes` of internal/httpapi/server.go, and how the `ServeMux` of net/http picks a handler. A
-- path is taken to be clean, as the mux makes it by a redirect; no two patterns of the table that
-- have a method in common match one path, so that the mux's order of precedence does not matter.
use forge_mini.Base.{
  ℕ, String, concat, Bool, true, false, ◌||◌, Option, none, some, List, [], ◌∷◌, str_eq,
}
use forge_mini.Base.Machine.{Time}
use forge_mini.Orchestration.{Runtime}
use forge_mini.App.System.{System}
use forge_mini.Http.{
  Decoder, Request, Response, method_not_allowed, moved_to, write_json, not_found_page,
}
use forge_mini.Http.Paths.{behind}
use forge_mini.Http.Handlers.{
  handle_signal, handle_timer, handle_unit_routes, handle_incidents, handle_stations,
  handle_units_by_state, handle_triage_unit, handle_timers, handle_scenario_list,
  handle_scenario_run,
}

pub data Method : Type 0 where
  get post : Method

-- a pattern ends with a slash, and then matches every path that begins with it, or it does not
pub data Pattern : Type 0 where
  exact under : String → Pattern

pub data Endpoint : Type 0 where
  signals timers_in units incidents stations unit_list triage timers_out scenarios scenario_run :
      Endpoint

pub record Route : Type 0 where
  pub method : Method
  pub pattern : Pattern
  pub endpoint : Endpoint

abbrev route : Method → Pattern → Endpoint → Route
route method pattern endpoint = record { method = method; pattern = pattern; endpoint = endpoint }

-- `Routes`
unfoldable pub routes : List Route
routes =
    route post (exact "/api/signals") signals
    ∷ route post (exact "/api/timers") timers_in
    ∷ route get (under "/api/units/") units
    ∷ route get (exact "/api/dashboard/incidents") incidents
    ∷ route get (exact "/api/dashboard/stations") stations
    ∷ route get (exact "/api/dashboard/units") unit_list
    ∷ route get (under "/api/triage/units/") triage
    ∷ route get (exact "/api/timers") timers_out
    ∷ route get (exact "/api/demo/scenarios") scenarios
    ∷ route post (under "/api/demo/scenarios/") scenario_run
    ∷ []

-- a pattern for GET matches HEAD too
unfoldable pub method_matches : Method → String → Bool
method_matches get name = str_eq name "GET" || str_eq name "HEAD"
method_matches post name = str_eq name "POST"

unfoldable pub is_some {ℓ} : {A : Type ℓ} → Option A → Bool
is_some none = false
is_some (some a) = true

unfoldable pub path_matches : Pattern → String → Bool
unfolding behind is_some
path_matches (exact p) path = str_eq p path
path_matches (under p) path = is_some (behind p path)

-- a path that lacks only the slash of a pattern
unfoldable pub lacks_slash : Pattern → String → Bool
lacks_slash (exact p) path = false
lacks_slash (under p) path = str_eq p (concat path "/")

-- what the mux finds: a handler, a redirect (307 from Go 1.26 on) to the path with a slash, 405 or 404
pub data Found : Type 0 where
  endpoint : Endpoint → Found
  redirect other_method nothing : Found

-- a route in front of what the others give
unfoldable pub prefer : Bool → Bool → Bool → Endpoint → Found → Found
prefer true true slash e rest = endpoint e
prefer _ _ slash e (endpoint f) = endpoint f
prefer true false true e rest = redirect
prefer _ _ slash e redirect = redirect
prefer false true slash e rest = other_method
prefer false false true e rest = other_method
prefer _ _ slash e rest = rest

unfoldable pub find : String → String → List Route → Found
unfolding method_matches path_matches lacks_slash prefer
find method path [] = nothing
find method path (r ∷ rs) =
    prefer (method_matches r.method method) (path_matches r.pattern path)
      (lacks_slash r.pattern path) r.endpoint (find method path rs)

module _ {K : Type 0} (decoder : Decoder) (clock : ℕ → Time) (runtime : Runtime (System K)) where
  -- the handler of an endpoint
  unfoldable pub handler : Endpoint → Request → System K → Response × System K
  handler signals = handle_signal decoder clock runtime
  handler timers_in = handle_timer decoder clock runtime
  handler units = handle_unit_routes decoder clock runtime
  handler incidents = handle_incidents decoder clock runtime
  handler stations = handle_stations decoder clock runtime
  handler unit_list = handle_units_by_state decoder clock runtime
  handler triage = handle_triage_unit decoder clock runtime
  handler timers_out = handle_timers decoder clock runtime
  handler scenarios = handle_scenario_list decoder clock runtime
  handler scenario_run = handle_scenario_run decoder clock runtime

  -- what is served for what the mux found
  unfoldable pub respond : Found → Request → System K → Response × System K
  unfolding handler
  respond (endpoint e) request s = handler e request s
  respond redirect request s = (write_json 307 (moved_to (concat request.path "/")), s)
  respond other_method request s = (write_json 405 method_not_allowed, s)
  respond nothing request s = (not_found_page, s)

  -- a request, from the mux to the response
  unfoldable pub serve : Request → System K → Response × System K
  unfolding find routes respond
  serve request s = respond (find request.method request.path routes) request s

  -- any sequence of requests
  unfoldable pub serve_all : List Request → System K → System K
  unfolding serve
  serve_all [] s = s
  serve_all (request ∷ rest) s = serve_all rest (serve request s).1
