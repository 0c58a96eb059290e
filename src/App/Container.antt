-- ===== src/App/Container.antt =====
-- `Container` of internal/app/app.go: which runtime the server has, and what it starts and stops.
use forge_mini.Base.{ℕ, String, Option, none, some, str_eq, if◌then◌else◌}
use forge_mini.Base.Errors.{
  Result, unsupported_runtime, connect_temporal, start_temporal_worker, ok, err,
}
use forge_mini.Base.Machine.{Time}
use forge_mini.Base.Action.{ActionOn}
use forge_mini.Signals.{Codec}
use forge_mini.Policy.{default_retry_policy}
use forge_mini.Orchestration.{RuntimeName, inprocess, temporal, other_runtime, Runtime}
use forge_mini.Store.{new_memory}
use forge_mini.App.Monad.{World}
use forge_mini.App.System.{System, on_world}
use forge_mini.App.Service.{handle_signal, handle_timer, run_scenario, workflow_of}
use forge_mini.Temporal.Sdk.{Client, Worker, Sdk}
use forge_mini.Temporal.Worker.{
  default_namespace, default_host_port, default_task_queue, start_worker, stop,
}
use forge_mini.Temporal.Runtime.{new_runtime}

-- `Container`, less what every container has in common: the store is in the state, the engine has the
-- default policy, and triage reads the store.
pub record Container (K : Type 0) : Type 0 where
  pub runtime : Runtime (System K)
  pub worker : Option (Worker K)
  pub client : Option (Client K)

-- the process as it starts
abbrev pub fresh : World
fresh = record { memory = new_memory; ticks = 0 }

-- the runtime that a text names, as `NewWithRuntime` compares it
unfoldable pub runtime_of_text : String → RuntimeName
runtime_of_text name =
    if str_eq name "inprocess"
    then inprocess
    else if str_eq name "temporal"
    then temporal
    else other_runtime name

module _ {K : Type 0} (json : Codec) (clock : ℕ → Time) where
  -- the methods of `Service`, as the interface `Runtime`
  unfoldable pub service_runtime : Runtime (System K)
  service_runtime = record {
    handle_signal = λ signal. on_world (handle_signal json default_retry_policy clock signal);
    handle_timer = λ timer. on_world (handle_timer json default_retry_policy clock timer);
    run_scenario = λ name unit. on_world (run_scenario json default_retry_policy clock name unit);
    get_workflow = λ unit. on_world (workflow_of json default_retry_policy clock unit);
  }

  module _ (sdk : Sdk K) (getenv : String → String) where
    -- `envOrDefault`
    unfoldable pub env_or_default : String → String → String
    env_or_default key fallback = if str_eq (getenv key) "" then fallback else getenv key

    -- `case orchestration.RuntimeTemporal` of `NewWithRuntime` from the start of the worker on
    unfoldable pub with_worker :
        Client K → String → Result (Worker K) × K → Result (Container K) × K
    unfolding new_runtime
    with_worker client task_queue (err e, k) = (err (start_temporal_worker e), client.close k)
    with_worker client task_queue (ok worker, k) = (
      ok (record {
        runtime = new_runtime json clock client task_queue;
        worker = some worker;
        client = some client;
      }),
      k,
    )

    -- the same from the connection on
    unfoldable pub with_client : String → Result (Client K) × K → Result (Container K) × K
    unfolding with_worker start_worker
    with_client task_queue (err e, k) = (err (connect_temporal e), k)
    with_client task_queue (ok client, k) =
        with_worker client task_queue (start_worker sdk client task_queue k)

    -- the whole case
    unfoldable pub new_temporal : ActionOn K (Container K)
    unfolding env_or_default with_client
    new_temporal k = with_client (env_or_default "TEMPORAL_TASK_QUEUE" default_task_queue) (
        sdk.dial
          (record {
            host_port = env_or_default "TEMPORAL_HOST_PORT" default_host_port;
            namespace = env_or_default "TEMPORAL_NAMESPACE" default_namespace;
          })
          k)

    -- `NewWithRuntime`
    unfoldable pub new_with_runtime : RuntimeName → ActionOn K (Container K)
    unfolding service_runtime new_temporal
    new_with_runtime inprocess k =
        (ok (record { runtime = service_runtime; worker = none; client = none }), k)
    new_with_runtime temporal k = new_temporal k
    new_with_runtime (other_runtime name) k = (err (unsupported_runtime name), k)

    -- `NewFromEnv`
    unfoldable pub new_from_env : ActionOn K (Container K)
    unfolding new_with_runtime runtime_of_text
    new_from_env = new_with_runtime (
        if str_eq (getenv "FORGE_RUNTIME") ""
        then inprocess
        else runtime_of_text (getenv "FORGE_RUNTIME"))

-- `Container.Close`, of a container that is not nil
unfoldable pub close_client : {K : Type 0} → Option (Client K) → K → K
close_client none k = k
close_client (some client) k = client.close k

unfoldable pub close : {K : Type 0} → Container K → K → K
unfolding stop close_client
close container k = close_client container.client (stop container.worker k)
