-- ===== src/Http/ReadOnly.antt =====
-- Requests to internal/httpapi/server.go that are not posted.
use forge_mini.Base.{
  ℕ, String, ◌≡◌, refl, sym, ◌≢◌, Bool, true, false, Bool-cases, inl, inr, List, [], ◌∷◌, str_eq,
  eq_iff, arith,
}
use forge_mini.Base.Machine.{Time}
use forge_mini.Signals.{Codec}
use forge_mini.App.System.{System}
use forge_mini.App.Container.{service_runtime}
use forge_mini.App.Service.{workflow_of}
use forge_mini.Http.{Decoder, Request, Response}
use forge_mini.Http.Paths.{trim_prefix, split_slash}
use forge_mini.Http.Handlers.{
  handle_unit, unit_parts, handle_unit_routes, handle_incidents, handle_stations,
  handle_units_by_state, handle_triage_unit, handle_timers, handle_scenario_list,
}
use forge_mini.Http.Routes.{
  Method, get, post, Route, Endpoint, signals, timers_in, units, incidents, stations, unit_list,
  triage, timers_out, scenarios, scenario_run, Found, endpoint, redirect, other_method, nothing,
  method_matches, path_matches, lacks_slash, prefer, find, routes, handler, respond, serve,
}

-- the method of an endpoint in the table
abbrev method_of : Endpoint → Method
method_of signals = post
method_of timers_in = post
method_of scenario_run = post
method_of _ = get

-- what the mux finds for a request that is not posted is not for a posted one
abbrev IsGet : Found → Type 0
IsGet (endpoint e) = method_of e ≡ get
IsGet _ = Unit

prefer-IsGet :
    (m p slash : Bool) (e : Endpoint) (rest : Found)
    → (m ≡ true → method_of e ≡ get)
    → IsGet rest
    → IsGet (prefer m p slash e rest)
unfolding prefer
prefer-IsGet true true slash e rest h k = h refl
prefer-IsGet true false true e (endpoint f) h k = k
prefer-IsGet true false true e redirect h k = tt
prefer-IsGet true false true e other_method h k = tt
prefer-IsGet true false true e nothing h k = tt
prefer-IsGet true false false e (endpoint f) h k = k
prefer-IsGet true false false e redirect h k = tt
prefer-IsGet true false false e other_method h k = tt
prefer-IsGet true false false e nothing h k = tt
prefer-IsGet false true slash e (endpoint f) h k = k
prefer-IsGet false true slash e redirect h k = tt
prefer-IsGet false true slash e other_method h k = tt
prefer-IsGet false true slash e nothing h k = tt
prefer-IsGet false false true e (endpoint f) h k = k
prefer-IsGet false false true e redirect h k = tt
prefer-IsGet false false true e other_method h k = tt
prefer-IsGet false false true e nothing h k = tt
prefer-IsGet false false false e (endpoint f) h k = k
prefer-IsGet false false false e redirect h k = tt
prefer-IsGet false false false e other_method h k = tt
prefer-IsGet false false false e nothing h k = tt

-- every route of the table has the method of its endpoint
abbrev AreFiled : List Route → Type 0
AreFiled [] = Unit
AreFiled (r ∷ rs) = (r.method ≡ method_of r.endpoint) × AreFiled rs

not_post :
    (name : String) (m : Method) (e : Endpoint)
    → name ≢ "POST"
    → m ≡ method_of e
    → method_matches m name ≡ true
    → method_of e ≡ get
unfolding method_matches
not_post name get e h q t = sym q
not_post name post e h q t = ground (arith, eq_iff name "POST")

find-IsGet :
    (method path : String) (rs : List Route)
    → method ≢ "POST"
    → AreFiled rs
    → IsGet (find method path rs)
unfolding find
find-IsGet method path [] h k = tt
find-IsGet method path (r ∷ rs) h (e, k) =
    prefer-IsGet (method_matches r.method method) (path_matches r.pattern path)
      (lacks_slash r.pattern path) r.endpoint (find method path rs)
      (not_post method r.method r.endpoint h e) (find-IsGet method path rs h k)

routes-AreFiled : AreFiled routes
unfolding routes
routes-AreFiled = ground arith

module _ {K : Type 0} (decoder : Decoder) (json : Codec) (clock : ℕ → Time) where
  abbrev Unchanged : (System K → Response × System K) → Type 0
  Unchanged h = (s : System K) → (h s).1 ≡ s

  parts-Unchanged :
      (parts : List String)
      → Unchanged (unit_parts decoder clock (service_runtime json clock) parts)
  unfolding unit_parts handle_unit service_runtime workflow_of
  parts-Unchanged [] s = refl
  parts-Unchanged (unit ∷ []) s = refl
  parts-Unchanged (unit ∷ last ∷ []) s = elim (Bool-cases (str_eq last "timeline")) [
    | inl e ↦ rw (e, unit_parts) refl
    | inr e ↦ rw (e, unit_parts) refl
  ]
  parts-Unchanged (unit ∷ x ∷ y ∷ rest) s = refl

  handler-Unchanged :
      (e : Endpoint) (request : Request)
      → method_of e ≡ get
      → Unchanged (handler decoder clock (service_runtime json clock) e request)
  unfolding handler handle_unit_routes handle_incidents handle_stations handle_units_by_state
      handle_triage_unit handle_timers handle_scenario_list
  handler-Unchanged signals request h s = cc
  handler-Unchanged timers_in request h s = cc
  handler-Unchanged units request h s =
      parts-Unchanged (split_slash (trim_prefix request.path "/api/units/")) s
  handler-Unchanged incidents request h s = refl
  handler-Unchanged stations request h s = refl
  handler-Unchanged unit_list request h s = refl
  handler-Unchanged triage request h s = refl
  handler-Unchanged timers_out request h s = refl
  handler-Unchanged scenarios request h s = refl
  handler-Unchanged scenario_run request h s = cc

  respond-Unchanged :
      (f : Found) (request : Request)
      → IsGet f
      → Unchanged (respond decoder clock (service_runtime json clock) f request)
  unfolding respond
  respond-Unchanged (endpoint e) request h s = handler-Unchanged e request h s
  respond-Unchanged redirect request h s = refl
  respond-Unchanged other_method request h s = refl
  respond-Unchanged nothing request h s = refl

  -- A request to a server with the in-process runtime whose method is not POST leaves the store, the
  -- clock and the Temporal side as they are, whatever its path.
  pub serve-Unchanged :
      (request : Request) (s : System K)
      → request.method ≢ "POST"
      → (serve decoder clock (service_runtime json clock) request s).1 ≡ s
  unfolding serve
  serve-Unchanged request s h =
      respond-Unchanged (find request.method request.path routes) request
        (find-IsGet request.method request.path routes h routes-AreFiled) s
