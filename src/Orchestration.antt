-- ===== src/Orchestration.antt =====
-- internal/orchestration/runtime.go: what a runtime is for the server, and the results of a scenario.
-- Both runtimes have the loop over the steps of a scenario; it is here once, over the two methods that
-- it calls.
pub mod Steps
use forge_mini.Base.{String, Option, none, some, List, [], ◌∷◌}
use forge_mini.Base.Errors.{run_step, ok, err}
use forge_mini.Base.Action.{ActionOn, ◌>>=◌, pure}
use forge_mini.Signals.{OperationalSignal}
use forge_mini.Workflow.State.{UnitWorkflow}
use forge_mini.Workflow.Decisions.{TimerPayload, HandleResult}
use forge_mini.Sim.{Step}

-- `RuntimeName`; `other_runtime` is a text that is none of the constants.
pub data RuntimeName : Type 0 where
  inprocess temporal : RuntimeName
  other_runtime : String → RuntimeName

-- `ScenarioStepResult`
pub record ScenarioStepResult : Type 0 where
  pub name : String
  pub result : HandleResult

-- `ScenarioRunResult`; the zero value of `FinalWorkflow` is `none`
pub record ScenarioRunResult : Type 0 where
  pub scenario : String
  pub unit_id : String
  pub steps : List ScenarioStepResult
  pub final_workflow : Option UnitWorkflow

-- the interface `Runtime`, of methods on a state
pub record Runtime (S : Type 0) : Type 0 where
  pub handle_signal : OperationalSignal → ActionOn S HandleResult
  pub handle_timer : TimerPayload → ActionOn S HandleResult
  pub run_scenario : String → String → ActionOn S ScenarioRunResult
  pub get_workflow : String → ActionOn S UnitWorkflow

-- an error of a step, wrapped by `fmt.Errorf("run step %q: %w", step.Name, err)`
unfoldable pub wrapped {ℓ} : {S : Type 0} {A : Type ℓ} → String → ActionOn S A → ActionOn S A
wrapped name m w =
    let (r, w') = m w in elim r [ ok a ↦ (ok a, w') | err e ↦ (err (run_step name e), w') ]

-- the append to `results`
unfoldable pub with_result :
    String → Option HandleResult → List ScenarioStepResult → List ScenarioStepResult
with_result name none results = results
with_result name (some r) results = record { name = name; result = r } ∷ results

module _ {S : Type 0} (handle_signal : OperationalSignal → ActionOn S HandleResult)
    (handle_timer : TimerPayload → ActionOn S HandleResult) where
  -- the `switch` in the loop of `RunScenario`; `none` is `continue`
  unfoldable pub run_one : Step → ActionOn S (Option HandleResult)
  run_one step = elim step.signal [
    | some signal ↦ do result ← handle_signal signal; pure (some result)
    | none ↦ elim step.timer [
      | some timer ↦ do result ← handle_timer timer; pure (some result)
      | none ↦ pure none
    ]
  ]

  -- the loop of `RunScenario`
  unfoldable pub run_steps : List Step → ActionOn S (List ScenarioStepResult)
  unfolding wrapped with_result
  run_steps [] = pure []
  run_steps (step ∷ steps) =
      let rest = run_steps steps in
      do
        result ← wrapped step.name (run_one step)
        results ← rest
        pure (with_result step.name result results)
