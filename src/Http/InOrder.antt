-- ===== src/Http/InOrder.antt =====
-- The server of internal/httpapi/server.go over the in-process runtime.
use forge_mini.Base.{ℕ, List, refl}
use forge_mini.Base.Machine.{Time}
use forge_mini.Signals.{Codec}
use forge_mini.Policy.{default_retry_policy}
use forge_mini.Policy.Default.{default-GivesReasons}
use forge_mini.Store.{get_workflow}
use forge_mini.App.System.{System}
use forge_mini.App.Container.{fresh, service_runtime}
use forge_mini.App.Service.{workflow_of}
use forge_mini.App.Shown.{InOrder, handle_signal-InOrder, handle_timer-InOrder}
use forge_mini.App.Keeps.{run_scenario-Keeps}
use forge_mini.Http.{Decoder, Request}
use forge_mini.Http.Routes.{serve_all}
use forge_mini.Http.Keeps.{RuntimeKeeps, serve_all-Kept}

module _ {K : Type 0} (json : Codec) (clock : ℕ → Time) where
  service_runtime-InOrder :
      RuntimeKeeps clock (service_runtime json clock) (λ (s : System K). InOrder s.world.memory)
  unfolding service_runtime workflow_of
  service_runtime-InOrder = record {
    clocked = λ s p. p;
    signalled = λ signal s p.
        handle_signal-InOrder clock json default_retry_policy signal s.world default-GivesReasons p;
    fired = λ timer s p. handle_timer-InOrder clock json default_retry_policy timer s.world p;
    ran = λ name unit s p.
        run_scenario-Keeps InOrder json default_retry_policy clock
          (λ signal w q.
            handle_signal-InOrder clock json default_retry_policy signal w default-GivesReasons q)
          (λ timer w q. handle_timer-InOrder clock json default_retry_policy timer w q) name unit
          s.world p;
    read = λ unit s p. p;
  }

  -- After any sequence of requests to a server that starts with the in-process runtime, scenario runs
  -- included: every stored snapshot has the identifier of its unit and that of its workflow, its
  -- station and hold reason fit its state, and the unit dashboard has a row for each stored snapshot,
  -- with its fields and the last stored decision of its workflow, and no other row.
  pub serve_all-InOrder :
      (decoder : Decoder) (requests : List Request) (k : K)
      → InOrder
          (serve_all decoder clock
            (service_runtime json clock)
            requests
            (record { world = fresh; sdk = k })).world.memory
  unfolding get_workflow
  serve_all-InOrder decoder requests k =
      serve_all-Kept decoder clock (service_runtime json clock) (λ s. InOrder s.world.memory)
        service_runtime-InOrder requests (record { world = fresh; sdk = k })
        ((λ unit. tt), (λ unit. refl))
