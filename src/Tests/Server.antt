-- ===== src/Tests/Server.antt =====
-- A server with a decoder that knows two bodies, and a Temporal SDK that counts what it has open.
use forge_mini.Base.{suc, ◌-◌, concat, ◌≡◌, refl, List, [], ◌∷◌, if◌then◌else◌, str_eq}
use forge_mini.Base.Dict.{lookup}
use forge_mini.Base.Errors.{ok, err}
use forge_mini.Orchestration.{temporal}
use forge_mini.Store.{get_workflow}
use forge_mini.App.System.{System}
use forge_mini.App.Container.{fresh, service_runtime, new_with_runtime}
use forge_mini.App.Closing.{Open, Promises, Balanced, new_with_runtime-Balanced}
use forge_mini.App.Shown.{InOrder}
use forge_mini.Temporal.Sdk.{Client, Sdk}
use forge_mini.Http.{Decoder, Request}
use forge_mini.Http.Routes.{serve, serve_all}
use forge_mini.Http.InOrder.{serve_all-InOrder}
use forge_mini.Http.Statuses.{
  posting, posted, SignalStatus, TimerStatus, signal_status, timer_status,
}
use forge_mini.Http.Units.{getting, unit_response, timeline_response, serve_unit, serve-timeline}
use forge_mini.Http.ReadOnly.{serve-Unchanged}
use forge_mini.Tests.Fixtures.{no_input, codec, clock, admission, timeout, fresh_unit}

abbrev decoder : Decoder
decoder = record {
  decode_signal = λ s. if str_eq s "admission" then ok admission else err no_input;
  decode_timer = λ s. if str_eq s "timeout" then ok timeout else err no_input;
}

abbrev started : System Open
started = record { world = fresh; sdk = record { clients = 0; workers = 0 } }

abbrev client : Client Open
client = record {
  signal_with_start_workflow = λ id name signal options workflow unit k. (ok tt, k);
  signal_workflow = λ id run name timer k. (ok tt, k);
  query_workflow = λ id run name k. (ok (ok fresh_unit), k);
  close = λ k. record k { clients = k.clients - 1 };
}

abbrev sdk : Sdk Open
sdk = record {
  dial = λ options k. (ok client, record k { clients = suc k.clients });
  new_worker = λ client queue. record {
    register = λ name k. k;
    start = λ k. (ok tt, record k { workers = suc k.workers });
    stop = λ k. record k { workers = k.workers - 1 };
  };
}

promises : Promises sdk (λ k. k)
promises = record {
  dialed = λ options k. (refl, λ j. refl);
  registered = λ client queue name k. refl;
  started = λ client queue k. refl;
  stopped = λ client queue k. refl;
}

abbrev requests : List Request
requests =
    posting "/api/signals" "admission"
    ∷ posting "/api/timers" "timeout"
    ∷ posting "/api/demo/scenarios/happy_path_unit" ""
    ∷ getting "/api/units/u-1"
    ∷ []

three_posts-InOrder :
    InOrder (serve_all decoder clock (service_runtime codec clock) requests started).world.memory
three_posts-InOrder = serve_all-InOrder codec clock decoder requests started.sdk

admission_status :
    SignalStatus codec
      (decoder.decode_signal "admission")
      started.world
      (posted decoder codec clock "/api/signals" "admission" started).status
admission_status = signal_status decoder codec clock "admission" started

timeout_status :
    TimerStatus
      (decoder.decode_timer "timeout")
      started.world
      (posted decoder codec clock "/api/timers" "timeout" started).status
timeout_status = timer_status decoder codec clock "timeout" started

unknown_unit :
    serve decoder clock (service_runtime codec clock) (getting (concat "/api/units/" "u-1")) started
    ≡ (unit_response (get_workflow "u-1" started.world.memory), started)
unknown_unit = serve_unit decoder codec clock "u-1" started (refl, (refl, (refl, tt)))

-- the server once a unit was admitted
abbrev admitting : System Open
admitting =
    serve_all decoder clock (service_runtime codec clock) (posting "/api/signals" "admission" ∷ [])
      started

admitted_timeline :
    serve decoder clock
      (service_runtime codec clock)
      (getting (concat "/api/units/" (concat "u-1" (concat "/" "timeline"))))
      admitting
    ≡ (
      timeline_response "u-1" admitting.world.memory
          (lookup "u-1" admitting.world.memory.workflows_by_unit),
      admitting,
    )
admitted_timeline =
    serve-timeline decoder clock (service_runtime codec clock) "u-1" admitting
      (refl, (refl, (refl, tt)))

listed :
    (serve decoder clock (service_runtime codec clock) (getting "/api/timers") started).1 ≡ started
listed = serve-Unchanged decoder codec clock (getting "/api/timers") started (λ e. absurd (cc))

temporal-Balanced :
    Balanced
      (λ k. k)
      started.sdk
      (new_with_runtime codec clock sdk (λ key. "") temporal started.sdk)
temporal-Balanced =
    new_with_runtime-Balanced codec clock sdk (λ key. "") (λ k. k) promises temporal started.sdk
