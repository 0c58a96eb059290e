-- ===== src/Temporal/Runtime.antt =====
-- `Runtime` of internal/temporalruntime/runtime.go: signals and timers are sent to the workflow of the
-- unit, and its state is queried.
use forge_mini.Base.{ℕ, String, concat, true, Option, none, some, [], if◌then◌else◌}
use forge_mini.Base.Errors.{Result, ok, err, is_temporal_not_found}
use forge_mini.Base.Machine.{Time, is_zero}
use forge_mini.Base.Action.{ActionOn, ◌>>=◌, ◌>>◌, pure, lift}
use forge_mini.Signals.{OperationalSignal, Codec}
use forge_mini.Workflow.State.{UnitWorkflow, state_text}
use forge_mini.Workflow.Decisions.{TimerPayload, HandleResult}
use forge_mini.Sim.{build_scenario}
use forge_mini.Orchestration.{ScenarioRunResult, Runtime, run_steps}
use forge_mini.App.System.{System, on_sdk, time_now}
use forge_mini.Temporal.Sdk.{Client, StartWorkflowOptions, allow_duplicate_failed_only}
use forge_mini.Temporal.Worker.{
  unit_workflow_name, signal_operational, signal_manual_timer, query_workflow_state,
  queue_or_default,
}

-- `unitWorkflowID`
unfoldable pub unit_workflow_id : String → String
unit_workflow_id unit = concat "forge-mini-unit-" unit

-- the answer that both methods give
abbrev pub answer : UnitWorkflow → HandleResult
unfolding state_text
answer wf = record {
  accepted = true;
  workflow_state = state_text wf.state;
  decision_ids = [];
  incident_id = "";
}

module _ {K : Type 0} (json : Codec) (clock : ℕ → Time) (client : Client K)
    (task_queue : String) where
  -- `queryWorkflow`
  unfoldable pub query_workflow : String → ActionOn (System K) UnitWorkflow
  query_workflow id = do
    value ← on_sdk (client.query_workflow id "" query_workflow_state)
    lift value

  -- the arrival time that `HandleSignal` sets
  unfoldable pub stamp : OperationalSignal → ActionOn (System K) OperationalSignal
  unfolding is_zero
  stamp signal w =
      if is_zero signal.received_at
      then (do t ← time_now clock; pure (record signal { received_at = t })) w
      else (ok signal, w)

  -- the options of a start in `HandleSignal`
  unfoldable pub start_options : String → StartWorkflowOptions
  start_options id = record {
    id = id;
    task_queue = task_queue;
    reuse_policy = allow_duplicate_failed_only;
    execution_timeout = 24;
  }

  -- `HandleSignal`
  unfoldable pub handle_signal : OperationalSignal → ActionOn (System K) HandleResult
  unfolding unit_workflow_id
  handle_signal signal = do
    signal ← stamp signal
    let id = unit_workflow_id signal.unit_id
    on_sdk (
        client.signal_with_start_workflow id signal_operational signal (start_options id)
          unit_workflow_name signal.unit_id)
    wf ← query_workflow id
    pure (answer wf)

  -- `HandleTimer`
  unfoldable pub handle_timer : TimerPayload → ActionOn (System K) HandleResult
  unfolding unit_workflow_id
  handle_timer timer = do
    let id = unit_workflow_id timer.unit_id
    on_sdk (client.signal_workflow id "" signal_manual_timer timer)
    wf ← query_workflow id
    pure (answer wf)

  -- the final state of a scenario, none where the workflow is not found
  unfoldable pub final_state : Result UnitWorkflow → Result (Option UnitWorkflow)
  unfolding is_temporal_not_found
  final_state (ok wf) = ok (some wf)
  final_state (err e) = if is_temporal_not_found e then ok none else err e

  -- the query at the end of `RunScenario`
  unfoldable pub query_final : String → ActionOn (System K) (Option UnitWorkflow)
  unfolding final_state
  query_final id s = let (r, s') = query_workflow id s in (final_state r, s')

  -- `RunScenario`
  unfoldable pub run_scenario : String → String → ActionOn (System K) ScenarioRunResult
  unfolding unit_workflow_id
  run_scenario name unit = do
    base ← time_now clock
    steps ← lift (build_scenario json name unit base)
    results ← run_steps handle_signal handle_timer steps
    final ← query_final (unit_workflow_id unit)
    pure (record { scenario = name; unit_id = unit; steps = results; final_workflow = final })

  -- `GetWorkflow`
  unfoldable pub get_workflow : String → ActionOn (System K) UnitWorkflow
  unfolding unit_workflow_id
  get_workflow unit = query_workflow (unit_workflow_id unit)

-- `NewRuntime`, as the interface `Runtime`
unfoldable pub new_runtime :
    {K : Type 0} → Codec → (ℕ → Time) → Client K → String → Runtime (System K)
unfolding queue_or_default
new_runtime json clock client task_queue =
    let queue = queue_or_default task_queue in
    record {
      handle_signal = handle_signal json clock client queue;
      handle_timer = handle_timer json clock client queue;
      run_scenario = run_scenario json clock client queue;
      get_workflow = get_workflow json clock client queue;
    }
