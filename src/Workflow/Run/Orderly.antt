-- ===== src/Workflow/Run/Orderly.antt =====
-- What holds of a unit after any sequence of events that the engine of internal/workflow/engine.go
-- is given for it.
use native.Mathlib.Nat.{add-zero}
use mathlib.Core.Path.{subst}
use forge_mini.Base.{ℕ, suc, ◌+◌, ◌<◌, ◌≤◌, ◌^◌, String, ◌≡◌, refl, List, [], ◌∷◌, ◌++◌, arith}
use forge_mini.Base.Errors.{Result, ok, err}
use forge_mini.Base.Dict.{lookup}
use forge_mini.Base.Machine.{Time}
use forge_mini.Signals.{OperationalSignal, Codec}
use forge_mini.Policy.{RetryPolicy}
use forge_mini.Workflow.State.{UnitWorkflow, new, attempt_at}
use forge_mini.Workflow.Decisions.{WorkflowDecision, TransitionResult}
use forge_mini.Workflow.Keys.{prefix-ne-nil}
use forge_mini.Workflow.Timers.{contains}
use forge_mini.Workflow.Engine.{apply_signal}
use forge_mini.Workflow.Outcome.{ResultIs, NextIs}
use forge_mini.Workflow.ActiveTimers.{Distinct}
use forge_mini.Workflow.PlainCases.{RetriesOnce}
use forge_mini.Workflow.TimerInvariant.{UnitFits, apply_signal-UnitFits, apply_timer-UnitFits}
use forge_mini.Workflow.RetryBudget.{
  retries, spent, Spends, apply_signal-Spends, apply_timer-Spends,
}
use forge_mini.Workflow.Lifecycle.{failures}
use forge_mini.Workflow.Run.{Event, signalled, fired, kept, step, run}

-- the signals are of the unit
abbrev pub AreOf : String → List Event → Type 0
AreOf unit [] = Unit
AreOf unit (signalled s now ∷ es) = (s.unit_id ≡ unit) × AreOf unit es
AreOf unit (fired p now ∷ es) = AreOf unit es

abbrev pub length : List Event → ℕ
length [] = 0
length (e ∷ es) = suc (length es)

-- A new unit is in order.
pub new-UnitFits : (unit : String) (now : Time) → UnitFits unit 0 (new unit now)
unfolding new attempt_at lookup contains
new-UnitFits unit now = record {
  own = refl;
  named = prefix-ne-nil unit;
  counted = omega arith;
  timers = record {
    distinct = tt;
    waiting = λ e. cc;
    untried = λ e station far. refl;
    retried = λ e. cc;
  };
}

more_events :
    (unit : String) (n : ℕ) (wf : UnitWorkflow) → UnitFits unit n wf → UnitFits unit (suc n) wf
more_events unit n wf f = record {
  own = f.own;
  named = f.named;
  counted = omega (arith, f.counted);
  timers = f.timers;
}

shift : (n k : ℕ) → n + suc k ≡ suc n + k
shift n k = omega arith

kept-is :
    (P : UnitWorkflow × List WorkflowDecision → Type 0) (wf : UnitWorkflow)
    (r : Result TransitionResult)
    → P (wf, [])
    → ResultIs (λ r. P (r.next_workflow, r.decisions)) r
    → P (kept wf r)
unfolding kept
kept-is P wf (ok r) same h = h
kept-is P wf (err e) same h = same

retries-append : (ds es : List WorkflowDecision) → retries (ds ++ es) ≡ retries ds + retries es
retries-append [] es = omega arith
retries-append (d ∷ ds) es = ground (arith, retries-append ds es)

module _ (json : Codec) (policy : RetryPolicy) (unit : String) (once : RetriesOnce policy) where
  -- one event, of a unit in order, leaves it in order and spends at most what was left
  abbrev Orderly : UnitWorkflow → ℕ → UnitWorkflow × List WorkflowDecision → Type 0
  Orderly wf n (next, ds) =
      UnitFits unit n next × (spent (failures wf) + retries ds ≤ spent (failures next))

  signal_Orderly :
      (wf : UnitWorkflow) (s : OperationalSignal) (now : Time) (n : ℕ) (r : Result TransitionResult)
      → NextIs (UnitFits unit n) r
      → ResultIs (Spends (failures wf)) r
      → ResultIs (λ r. Orderly wf n (r.next_workflow, r.decisions)) r
  signal_Orderly wf s now n (ok r) f h = (f, h)
  signal_Orderly wf s now n (err e) f h = tt

  step-Orderly :
      (wf : UnitWorkflow) (e : Event) (n : ℕ)
      → AreOf unit (e ∷ [])
      → suc n < 2 ^ 63
      → UnitFits unit n wf
      → Orderly wf (suc n) (step json policy wf e)
  unfolding step
  step-Orderly wf (signalled s now) n own small f =
      let next =
        subst
          (λ u. UnitFits u n wf → NextIs (UnitFits u (suc n)) (apply_signal json policy wf s now))
          own.0 (apply_signal-UnitFits json policy s now n wf once small) f in
      kept-is (Orderly wf (suc n)) wf (apply_signal json policy wf s now)
        (more_events unit n wf f, omega arith)
        (signal_Orderly wf s now (suc n) _ next
          (apply_signal-Spends json policy s now wf once f.named (omega (arith, f.counted))))
  step-Orderly wf (fired p now) n own small f =
      (apply_timer-UnitFits unit n wf p now f, apply_timer-Spends wf p now)

  -- an event and then the others
  then_run :
      (e : Event) (es : List Event) (wf : UnitWorkflow) (n : ℕ)
      → Orderly wf (suc n) (step json policy wf e)
      → (UnitFits unit (suc n) (step json policy wf e).0
          → Orderly
              (step json policy wf e).0
              (suc n + length es)
              (run json policy (step json policy wf e).0 es))
      → Orderly wf (n + length (e ∷ es)) (run json policy wf (e ∷ es))
  unfolding run
  then_run e es wf n first rest =
      let (fits, spends) = first in
      let (fits', spends') = rest fits in
      (
        rw (shift n (length es)) fits',
        omega (
          arith,
          retries-append (step json policy wf e).1 (run json policy (step json policy wf e).0 es).1,
          spends,
          spends',
        ),
      )

  run-Orderly :
      (es : List Event) (wf : UnitWorkflow) (n : ℕ)
      → AreOf unit es
      → n + length es < 2 ^ 63
      → UnitFits unit n wf
      → Orderly wf (n + length es) (run json policy wf es)
  unfolding run
  run-Orderly [] wf n own small f = rw add-zero (f, omega arith)
  run-Orderly (signalled s now ∷ es) wf n own small f =
      then_run (signalled s now) es wf n
        (step-Orderly wf (signalled s now) n (own.0, tt) (omega arith) f)
        (run-Orderly es (step json policy wf (signalled s now)).0 (suc n) own.1 (omega arith))
  run-Orderly (fired p now ∷ es) wf n own small f =
      then_run (fired p now) es wf n (step-Orderly wf (fired p now) n tt (omega arith) f)
        (run-Orderly es (step json policy wf (fired p now)).0 (suc n) own (omega arith))

-- For a new unit and any list of fewer than 2 ^ 63 events, whose signals are of that unit, under a
-- policy that authorises no retry for a count from 1 to 2 ^ 63 - 1: the active timer keys of the
-- snapshot that results are distinct, and the decisions that were made start one retry at most.
pub run_in_budget :
    (json : Codec) (policy : RetryPolicy) (unit : String) (born : Time) (es : List Event)
    → RetriesOnce policy
    → AreOf unit es
    → length es < 2 ^ 63
    → let (wf, decisions) = run json policy (new unit born) es in
      Distinct wf.active_timer_keys × (retries decisions ≤ 1)
run_in_budget json policy unit born es once own small =
    let (f, spends) =
      run-Orderly json policy unit once es (new unit born) 0 own (omega arith)
        (new-UnitFits unit born) in
    (f.timers.distinct, ground (arith, spends))
