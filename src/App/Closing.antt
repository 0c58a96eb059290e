-- ===== src/App/Closing.antt =====
-- The client and the worker that a container of internal/app/app.go starts, and what stops them.
use forge_mini.Base.{ℕ, suc, ◌-◌, String, ◌≡◌, refl, ◌∙◌, arith}
use forge_mini.Base.Errors.{Result, ok, err}
use forge_mini.Base.Machine.{Time}
use forge_mini.Signals.{Codec}
use forge_mini.Orchestration.{RuntimeName, inprocess, temporal, other_runtime}
use forge_mini.App.Container.{
  Container, env_or_default, with_worker, with_client, new_temporal, new_with_runtime, close_client,
  close,
}
use forge_mini.Temporal.Sdk.{Client, ClientOptions, Sdk}
use forge_mini.Temporal.Worker.{
  queue_or_default, default_task_queue, unit_workflow_name, handle_of, start_worker, stop,
}

-- What the SDK has open: clients that are connected, and workers that run.
pub record Open : Type 0 where
  pub clients : ℕ
  pub workers : ℕ

module _ {K : Type 0} (opened : K → Open) where
  -- `Dial` connects a client, which `Close` disconnects, or fails
  abbrev pub Dialed : K → Result (Client K) × K → Type 0
  Dialed k (ok client, k') =
      (opened k' ≡ record (opened k) { clients = suc (opened k).clients })
      × ((j : K) → opened (client.close j) ≡ record (opened j) { clients = (opened j).clients - 1 })
  Dialed k (err e, k') = opened k' ≡ opened k

  -- `Start` runs a worker or fails
  abbrev pub Started : K → Result (Unit {0}) × K → Type 0
  Started k (ok u, k') = opened k' ≡ record (opened k) { workers = suc (opened k).workers }
  Started k (err e, k') = opened k' ≡ opened k

-- What the documentation of the SDK says of its calls.
pub record Promises {K : Type 0} (sdk : Sdk K) (opened : K → Open) : Type 0 where
  pub dialed : (options : ClientOptions) (k : K) → Dialed opened k (sdk.dial options k)
  pub registered :
      (client : Client K) (queue name : String) (k : K)
      → opened ((sdk.new_worker client queue).register name k) ≡ opened k
  pub started :
      (client : Client K) (queue : String) (k : K)
      → Started opened k ((sdk.new_worker client queue).start k)
  pub stopped :
      (client : Client K) (queue : String) (k : K)
      → opened ((sdk.new_worker client queue).stop k)
        ≡ record (opened k) { workers = (opened k).workers - 1 }

-- Nothing is left open: by a call that failed, or once the container is closed.
abbrev pub Balanced : {K : Type 0} → (K → Open) → K → Result (Container K) × K → Type 0
Balanced opened k (ok container, k') = opened (close container k') ≡ opened k
Balanced opened k (err e, k') = opened k' ≡ opened k

module _ {K : Type 0} (json : Codec) (clock : ℕ → Time) (sdk : Sdk K) (getenv : String → String)
    (opened : K → Open) (promises : Promises sdk opened) where
  with_worker-Balanced :
      (client : Client K) (queue : String) (before k : K) (r : Result (Unit {0}) × K)
      → opened k ≡ record (opened before) { clients = suc (opened before).clients }
      → ((j : K) → opened (client.close j) ≡ record (opened j) { clients = (opened j).clients - 1 })
      → Started opened k r
      → Balanced opened before (
          with_worker json clock sdk getenv client queue
            (handle_of (sdk.new_worker client (queue_or_default queue)) r))
  unfolding with_worker handle_of close close_client stop
  with_worker-Balanced client queue before k (ok u, k') grown closes started =
      let worker = sdk.new_worker client (queue_or_default queue) in
      closes (worker.stop k')
      ∙ rw (promises.stopped client (queue_or_default queue) k', started, grown) (ground arith)
  with_worker-Balanced client queue before k (err x, k') grown closes started =
      closes k' ∙ rw (started, grown) (ground arith)

  with_client-Balanced :
      (queue : String) (before : K) (r : Result (Client K) × K)
      → Dialed opened before r
      → Balanced opened before (with_client json clock sdk getenv queue r)
  unfolding with_client start_worker
  with_client-Balanced queue before (ok client, k) (grown, closes) =
      let worker = sdk.new_worker client (queue_or_default queue) in
      with_worker-Balanced client queue before (worker.register unit_workflow_name k)
        (worker.start (worker.register unit_workflow_name k))
        (promises.registered client (queue_or_default queue) unit_workflow_name k ∙ grown) closes
        (promises.started client (queue_or_default queue) (worker.register unit_workflow_name k))
  with_client-Balanced queue before (err x, k) same = same

  -- For an SDK that does what its documentation says: whichever runtime is asked for, a call of
  -- `NewWithRuntime` that fails leaves no more clients connected and workers running than before, and
  -- so does one that succeeds, once its container is closed.
  pub new_with_runtime-Balanced :
      (name : RuntimeName) (k : K)
      → Balanced opened k (new_with_runtime json clock sdk getenv name k)
  unfolding new_with_runtime new_temporal close close_client stop
  new_with_runtime-Balanced inprocess k = refl
  new_with_runtime-Balanced temporal k =
      with_client-Balanced
        (env_or_default json clock sdk getenv "TEMPORAL_TASK_QUEUE" default_task_queue) k
        (sdk.dial _ k) (promises.dialed _ k)
  new_with_runtime-Balanced (other_runtime name) k = refl
