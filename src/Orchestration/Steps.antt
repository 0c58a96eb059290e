-- ===== src/Orchestration/Steps.antt =====
-- What a run of the steps of a scenario keeps of the state.
use forge_mini.Base.{Option, some, List, [], ◌∷◌, String, Option-cases, inl, inr}
use forge_mini.Base.Errors.{Result, ok, err}
use forge_mini.Base.Action.{ActionOn, ◌>>=◌, pure}
use forge_mini.Base.Preserves.{Preserves, bind-Preserves}
use forge_mini.Signals.{OperationalSignal}
use forge_mini.Workflow.Decisions.{TimerPayload, HandleResult}
use forge_mini.Sim.{Step}
use forge_mini.Orchestration.{ScenarioStepResult, with_result, wrapped, run_one, run_steps}

abbrev some_result : {S : Type 0} → HandleResult → ActionOn S (Option HandleResult)
some_result result = pure (some result)

module _ {S : Type 0} (P : S → Type 0) where
  wrapped-after {ℓ} :
      {A : Type ℓ} (name : String) (r : Result A × S) (s : S)
      → P r.1
      → P (wrapped name (λ _. r) s).1
  unfolding wrapped
  wrapped-after name (ok a, s') s h = h
  wrapped-after name (err e, s') s h = h

  module _ (handle_signal : OperationalSignal → ActionOn S HandleResult)
      (handle_timer : TimerPayload → ActionOn S HandleResult)
      (on_signal : (signal : OperationalSignal) → Preserves P (handle_signal signal))
      (on_timer : (timer : TimerPayload) → Preserves P (handle_timer timer)) where
    run_one-Preserves : (step : Step) → Preserves P (run_one handle_signal handle_timer step)
    unfolding run_one
    run_one-Preserves step s p = elim (Option-cases step.signal) [
      | inr (signal, e) ↦
          rw (e, run_one)
            (bind-Preserves P (handle_signal signal) some_result (on_signal signal)
              (λ result s p. p) s p)
      | inl e ↦ elim (Option-cases step.timer) [
        | inr (timer, q) ↦
            rw (e, q, run_one)
              (bind-Preserves P (handle_timer timer) some_result (on_timer timer) (λ result s p. p)
                s p)
        | inl q ↦ rw (e, q, run_one) p
      ]
    ]

    pub run_steps-Preserves :
        (steps : List Step) → Preserves P (run_steps handle_signal handle_timer steps)
    unfolding run_steps
    run_steps-Preserves [] s p = p
    run_steps-Preserves (step ∷ steps) s p =
        let answer : List ScenarioStepResult
            → Option HandleResult
            → ActionOn S (List ScenarioStepResult) =
          λ results result. pure (with_result step.name result results) in
        let rest = run_steps handle_signal handle_timer steps in
        bind-Preserves P (wrapped step.name (run_one handle_signal handle_timer step))
          (λ result. rest >>= λ results. answer results result)
          (λ s p.
            wrapped-after step.name (run_one handle_signal handle_timer step s) s
              (run_one-Preserves step s p))
          (λ result.
            bind-Preserves P rest (λ results. answer results result) (run_steps-Preserves steps)
              (λ results s p. p))
          s p
