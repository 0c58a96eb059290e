-- ===== src/Temporal/Worker.antt =====
-- internal/temporalruntime/types.go and internal/temporalruntime/worker.go.
use forge_mini.Base.{String, Option, none, some, str_eq, if◌then◌else◌}
use forge_mini.Base.Errors.{Result, ok, err}
use forge_mini.Base.Action.{ActionOn}
use forge_mini.Temporal.Sdk.{Client, Worker, Sdk}

abbrev pub default_namespace : String
default_namespace = "default"

abbrev pub default_host_port : String
default_host_port = "localhost:7233"

abbrev pub default_task_queue : String
default_task_queue = "forge-mini"

abbrev pub unit_workflow_name : String
unit_workflow_name = "ForgeMiniUnitWorkflow"

abbrev pub signal_operational : String
signal_operational = "operational_signal"

abbrev pub signal_manual_timer : String
signal_manual_timer = "manual_timer"

abbrev pub query_workflow_state : String
query_workflow_state = "workflow_state"

-- the task queue, the default one where none is given
unfoldable pub queue_or_default : String → String
queue_or_default task_queue = if str_eq task_queue "" then default_task_queue else task_queue

module _ {K : Type 0} where
  -- the handle of a worker, for what its start returned
  unfoldable pub handle_of : Worker K → Result (Unit {0}) × K → Result (Worker K) × K
  handle_of worker (ok u, k) = (ok worker, k)
  handle_of worker (err e, k) = (err e, k)

  -- `StartWorker`; the handle holds the worker
  unfoldable pub start_worker : Sdk K → Client K → String → ActionOn K (Worker K)
  unfolding queue_or_default handle_of
  start_worker sdk client task_queue k =
      let worker = sdk.new_worker client (queue_or_default task_queue) in
      handle_of worker (worker.start (worker.register unit_workflow_name k))

  -- `WorkerHandle.Stop`; a nil handle is `none`
  unfoldable pub stop : Option (Worker K) → K → K
  stop none k = k
  stop (some worker) k = worker.stop k
