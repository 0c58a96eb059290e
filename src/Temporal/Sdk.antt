-- ===== src/Temporal/Sdk.antt =====
-- What internal/temporalruntime and internal/app call of the Temporal SDK, as a parameter: a client and
-- a worker are the methods that the program calls, on a state `K` that is the SDK's own.
use forge_mini.Base.{ℕ, String}
use forge_mini.Base.Errors.{Result}
use forge_mini.Base.Action.{ActionOn}
use forge_mini.Signals.{OperationalSignal}
use forge_mini.Workflow.State.{UnitWorkflow}
use forge_mini.Workflow.Decisions.{TimerPayload}

-- `WorkflowIDReusePolicy`, of which the program uses one value
pub data ReusePolicy : Type 0 where
  allow_duplicate_failed_only : ReusePolicy

-- `client.StartWorkflowOptions`, as far as the program sets it; the timeout is in hours
pub record StartWorkflowOptions : Type 0 where
  pub id : String
  pub task_queue : String
  pub reuse_policy : ReusePolicy
  pub execution_timeout : ℕ

-- `client.Options`
pub record ClientOptions : Type 0 where
  pub host_port : String
  pub namespace : String

-- The methods of `client.Client`. A query gives a value, which `value.Get` decodes or not.
pub record Client (K : Type 0) : Type 0 where
  pub signal_with_start_workflow :
      String
      → String
      → OperationalSignal
      → StartWorkflowOptions
      → String
      → String
      → ActionOn K (Unit {0})
  pub signal_workflow : String → String → String → TimerPayload → ActionOn K (Unit {0})
  pub query_workflow : String → String → String → ActionOn K (Result UnitWorkflow)
  pub close : K → K

-- The methods of `worker.Worker`; what is registered is a workflow under its name.
pub record Worker (K : Type 0) : Type 0 where
  pub register : String → K → K
  pub start : ActionOn K (Unit {0})
  pub stop : K → K

-- `client.Dial` and `worker.New`
pub record Sdk (K : Type 0) : Type 0 where
  pub dial : ClientOptions → ActionOn K (Client K)
  pub new_worker : Client K → String → Worker K
