-- ===== src/App/Service.antt =====
-- The methods of `Service` in internal/app/app.go.
use forge_mini.Base.{Bool, true, false, ℕ, String, false, some, [], if◌then◌else◌}
use forge_mini.Base.Errors.{not_found, ok, err}
use forge_mini.Base.Machine.{Time, is_zero}
use forge_mini.Signals.{OperationalSignal, Codec}
use forge_mini.Policy.{RetryPolicy}
use forge_mini.Workflow.State.{UnitWorkflow, new}
use forge_mini.Workflow.Decisions.{TimerPayload, HandleResult}
use forge_mini.Workflow.Engine.{apply_signal, apply_timer}
use forge_mini.Store.{append_signal, signal_exists, get_workflow}
use forge_mini.Sim.{build_scenario}
use forge_mini.Orchestration.{ScenarioRunResult, run_steps}
use forge_mini.App.Monad.{Action, ◌>>=◌, ◌>>◌, pure, gets, attempt, lift, modify, now}
use forge_mini.App.Commit.{commit_transition}

-- the answer to a signal that was seen before
abbrev pub duplicate_result : HandleResult
duplicate_result = record {
  accepted = false;
  workflow_state = "";
  decision_ids = [];
  incident_id = "";
}

module _ (json : Codec) (policy : RetryPolicy) (clock : ℕ → Time) where
  -- the arrival time that `HandleSignal` sets
  unfoldable pub stamp : OperationalSignal → Action OperationalSignal
  unfolding is_zero
  stamp signal w =
      if is_zero signal.received_at
      then (do t ← now clock; pure (record signal { received_at = t })) w
      else (ok signal, w)

  -- the snapshot of a unit, a new one where there is none
  unfoldable pub load_or_new : String → Action UnitWorkflow
  unfolding new
  load_or_new unit w = elim (get_workflow unit w.memory) [
    | ok wf ↦ (ok wf, w)
    | err not_found ↦ (do t ← now clock; pure (new unit t)) w
    | err e ↦ (err e, w)
  ]

  -- `HandleSignal` from the store of the signal on
  unfoldable pub process_signal : OperationalSignal → Action HandleResult
  process_signal signal = do
    modify (append_signal signal)
    snapshot ← load_or_new signal.unit_id
    t ← now clock
    result ← lift (apply_signal json policy snapshot signal t)
    commit_transition clock signal.unit_id result

  -- `if exists`
  unfoldable pub unless_seen : Action HandleResult → Bool → Action HandleResult
  unless_seen rest true = pure duplicate_result
  unless_seen rest false = rest

  -- `HandleSignal`
  unfoldable pub handle_signal : OperationalSignal → Action HandleResult
  handle_signal signal = do
    signal ← stamp signal
    unless_seen (process_signal signal) (← gets (signal_exists signal.id))

  -- `HandleTimer`
  unfoldable pub handle_timer : TimerPayload → Action HandleResult
  handle_timer timer = do
    snapshot ← attempt (get_workflow timer.unit_id)
    t ← now clock
    commit_transition clock timer.unit_id (apply_timer snapshot timer t)

  -- `RunScenario`
  unfoldable pub run_scenario : String → String → Action ScenarioRunResult
  run_scenario name unit = do
    base ← now clock
    steps ← lift (build_scenario json name unit base)
    results ← run_steps handle_signal handle_timer steps
    final ← attempt (get_workflow unit)
    pure (record { scenario = name; unit_id = unit; steps = results; final_workflow = some final })

  -- `GetWorkflow`
  unfoldable pub workflow_of : String → Action UnitWorkflow
  workflow_of unit = attempt (get_workflow unit)
