-- ===== src/App/Keeps.antt =====
-- What a run of a scenario by `Service` of internal/app/app.go keeps of the store, where
-- `HandleSignal` and `HandleTimer` keep it.
use forge_mini.Base.{ℕ, String, List, some}
use forge_mini.Base.Machine.{Time}
use forge_mini.Base.Preserves.{Preserves, bind-Preserves}
use forge_mini.Signals.{OperationalSignal, Codec}
use forge_mini.Policy.{RetryPolicy}
use forge_mini.Workflow.State.{UnitWorkflow}
use forge_mini.Workflow.Decisions.{TimerPayload}
use forge_mini.Sim.{Step, build_scenario}
use forge_mini.Orchestration.{ScenarioStepResult, ScenarioRunResult, run_steps}
use forge_mini.Orchestration.Steps.{run_steps-Preserves}
use forge_mini.Store.{Memory, get_workflow}
use forge_mini.App.Monad.{World, Action, ◌>>=◌, pure, lift, attempt, now}
use forge_mini.App.Service.{handle_signal, handle_timer, run_scenario}

module _ (Q : Memory → Type 0) (json : Codec) (policy : RetryPolicy) (clock : ℕ → Time) where
  abbrev pub Keeps {ℓ} : {A : Type ℓ} → Action A → Type 0
  Keeps = Preserves (λ w. Q w.memory)

  module _
      (on_signal : (signal : OperationalSignal) → Keeps (handle_signal json policy clock signal))
      (on_timer : (timer : TimerPayload) → Keeps (handle_timer json policy clock timer)) where
    pub run_scenario-Keeps : (name unit : String) → Keeps (run_scenario json policy clock name unit)
    unfolding run_scenario
    run_scenario-Keeps name unit =
        let P = λ (w : World). Q w.memory in
        let answer : List ScenarioStepResult → UnitWorkflow → Action ScenarioRunResult =
          λ results final. pure (record {
            scenario = name;
            unit_id = unit;
            steps = results;
            final_workflow = some final;
          }) in
        let read : List ScenarioStepResult → Action ScenarioRunResult =
          λ results. attempt (get_workflow unit) >>= answer results in
        let steps_run : List Step → Action ScenarioRunResult = λ steps.
          run_steps (handle_signal json policy clock) (handle_timer json policy clock) steps
          >>= read in
        let built : Time → Action ScenarioRunResult =
          λ base. lift (build_scenario json name unit base) >>= steps_run in
        bind-Preserves P (now clock) built (λ w q. q)
          (λ base.
            bind-Preserves P (lift (build_scenario json name unit base)) steps_run (λ w q. q)
              (λ steps.
                bind-Preserves P
                  (run_steps (handle_signal json policy clock) (handle_timer json policy clock)
                    steps)
                  read
                  (run_steps-Preserves P (handle_signal json policy clock)
                    (handle_timer json policy clock) on_signal on_timer steps)
                  (λ results.
                    bind-Preserves P (attempt (get_workflow unit)) (answer results) (λ w q. q)
                      (λ final w q. q))))
