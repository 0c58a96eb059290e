-- ===== src/App/Answers.antt =====
-- When the methods of `Service` in internal/app/app.go return an error.
use mathlib.Core.Path.{subst}
use forge_mini.Base.{
  ℕ, suc, String, false, ◌≡◌, refl, sym, ◌∙◌, ◌↔◌, inl, inr, Bool-cases, str_eq, eq_iff, concat,
  arith, if◌then◌else◌,
}
use forge_mini.Base.Errors.{Error, not_found, Result, ok, err}
use forge_mini.Base.Machine.{Time, is_zero}
use forge_mini.Signals.{OperationalSignal, Codec}
use forge_mini.Policy.{RetryPolicy}
use forge_mini.Workflow.State.{State, pending, UnitWorkflow, new}
use forge_mini.Workflow.Decisions.{TimerPayload, TransitionResult}
use forge_mini.Workflow.Engine.{known_workflow, apply_signal, apply_timer}
use forge_mini.Workflow.Lifecycle.{Undecodable, bad_failure, bad_disposition}
use forge_mini.Workflow.Lifecycle.Refusals.{apply_signal-err_iff}
use forge_mini.Store.{Memory, append_signal, signal_exists, get_workflow}
use forge_mini.Store.Reads.{get_workflow-cases}
use forge_mini.App.Monad.{World, ◌>>=◌, lift, now}
use forge_mini.App.Commit.{commit_transition}
use forge_mini.App.Effects.{Ends}
use forge_mini.App.Committed.{commit_transition-IsCommitted}
use forge_mini.App.Service.{stamp, process_signal, unless_seen, handle_signal, handle_timer}
use forge_mini.App.Once.{IsSnapshot, process_signal-cases, handle_signal-seen}

-- the state of a unit as the engine takes it: a unit that is not stored is pending
abbrev pub standing : Result UnitWorkflow → State
standing (ok wf) = if str_eq wf.workflow_id "" then pending else wf.state
standing (err e) = pending

Ends-ok {ℓ} :
    {A : Type ℓ} (P : A → World → Type 0) (r : Result A × World) (e : Error)
    → Ends P r
    → r.0 ≡ err e
    → ⊥
Ends-ok P (ok a, w) e h q = cc
Ends-ok P (err x, w) e h q = h

known_workflow-standing :
    (wf : UnitWorkflow) (s : OperationalSignal) (now : Time)
    → (known_workflow wf s now).state ≡ standing (ok wf)
unfolding known_workflow new
known_workflow-standing wf s now = elim (Bool-cases (str_eq wf.workflow_id "")) [
  | inl e ↦ rw (e, known_workflow) refl
  | inr e ↦ rw (e, known_workflow) refl
]

snapshot-standing :
    (unit : String) (m : Memory) (wf : UnitWorkflow)
    → IsSnapshot unit m wf
    → standing (ok wf) ≡ standing (get_workflow unit m)
unfolding new
snapshot-standing unit m wf (inl e) = rw e refl
snapshot-standing unit m wf (inr (e, (t, q))) =
    rw (e, q) (ground (arith, eq_iff (concat "wf-" unit) ""))

-- the arrival time does not matter to a payload
stamped :
    {json : Codec} {signal : OperationalSignal} {t : Time} {st : State} {e : Error}
    → Undecodable json signal st e
    → Undecodable json (record signal { received_at = t }) st e
stamped (bad_failure a b c) = bad_failure a b c
stamped (bad_disposition a b c) = bad_disposition a b c

unstamped :
    {json : Codec} {signal : OperationalSignal} {t : Time} {st : State} {e : Error}
    → Undecodable json (record signal { received_at = t }) st e
    → Undecodable json signal st e
unstamped (bad_failure a b c) = bad_failure a b c
unstamped (bad_disposition a b c) = bad_disposition a b c

module _ (json : Codec) (policy : RetryPolicy) (clock : ℕ → Time) where
  answer-err_iff :
      (unit : String) (r : Result TransitionResult) (w : World) (e : Error)
      → ((lift r >>= commit_transition clock unit) w).0 ≡ err e ↔ (r ≡ err e)
  answer-err_iff unit (ok r) w e = (
    λ q. absurd (
        Ends-ok _ (commit_transition clock unit r w) e
          (commit_transition-IsCommitted clock r unit w) q),
    λ q. cc,
  )
  answer-err_iff unit (err x) w e = (λ q. cc, λ q. cc)

  process_signal-err_iff :
      (signal : OperationalSignal) (w : World) (e : Error)
      → ((process_signal json policy clock signal w).0 ≡ err e)
        ↔ Undecodable json signal (standing (get_workflow signal.unit_id w.memory)) e
  unfolding append_signal get_workflow
  process_signal-err_iff signal w e =
      process_signal-cases json policy clock
        (λ r.
          (r.0 ≡ err e)
          ↔ Undecodable json signal (standing (get_workflow signal.unit_id w.memory)) e)
        signal w
        (λ wf t n _ read.
          let stored : World = record { memory = append_signal signal w.memory; ticks = n } in
          let result = apply_signal json policy wf signal t in
          let same : (known_workflow wf signal t).state
              ≡ standing (get_workflow signal.unit_id w.memory) =
            known_workflow-standing wf signal t
            ∙ snapshot-standing signal.unit_id stored.memory wf read in
          let (there, back) = answer-err_iff signal.unit_id result stored e in
          let (bad, raised) = apply_signal-err_iff json policy signal wf t e in
          (
            λ q. subst (λ st. Undecodable json signal st e) same (bad (there q)),
            λ u. back (raised (subst (λ st. Undecodable json signal st e) (sym same) u)),
          ))

  -- For every store, `HandleSignal` returns the error `e` if and only if the signal was not seen before
  -- and is a test failure for a unit that awaits its test result, or a quality disposition for a unit
  -- on hold, whose payload does not decode, with `e` the wrapped error; a unit that is not stored
  -- counts as pending.
  pub handle_signal-err_iff :
      (signal : OperationalSignal) (w : World) (e : Error)
      → ((handle_signal json policy clock signal w).0 ≡ err e) ↔ (
          (signal_exists signal.id w.memory ≡ false)
          × Undecodable json signal (standing (get_workflow signal.unit_id w.memory)) e)
  unfolding handle_signal stamp unless_seen
  handle_signal-err_iff signal w e = elim (Bool-cases (signal_exists signal.id w.memory)) [
    | inl seen ↦
        let answered = (handle_signal-seen json policy clock signal w seen).0 in (λ q. cc, λ q. cc)
    | inr unseen ↦ elim (Bool-cases (is_zero signal.received_at)) [
      | inl z ↦
          rw (z, unseen, handle_signal, stamp)
            (let (there, back) = process_signal-err_iff _ _ e in
              (λ h. (refl, unstamped (there h)), λ (h, u). back (stamped u)))
      | inr z ↦
          rw (z, unseen, handle_signal, stamp)
            (let (there, back) = process_signal-err_iff _ _ e in
              (λ h. (refl, there h), λ (h, u). back u))
    ]
  ]

  timed-err_iff :
      (timer : TimerPayload) (r : Result UnitWorkflow) (w : World) (e : Error)
      → ((((lift r >>= λ snapshot. now clock >>= λ t.
              commit_transition clock timer.unit_id (apply_timer snapshot timer t))
            w).0)
          ≡ err e)
        ↔ (r ≡ err e)
  timed-err_iff timer (ok wf) w e =
      let result = apply_timer wf timer (clock w.ticks) in
      let w' : World = record w { ticks = suc w.ticks } in
      (
        λ q. absurd (
            Ends-ok _ (commit_transition clock timer.unit_id result w') e
              (commit_transition-IsCommitted clock result timer.unit_id w') q),
        λ q. cc,
      )
  timed-err_iff timer (err x) w e = (λ q. cc, λ q. cc)

  missing_only :
      (unit : String) (m : Memory) (e : Error)
      → get_workflow unit m ≡ err e
      → (get_workflow unit m ≡ err not_found) × (e ≡ not_found)
  missing_only unit m e q = elim (get_workflow-cases unit m) [
    | inl (wf, found) ↦ cc
    | inr missing ↦ (missing, cc)
  ]

  -- For every store, `HandleTimer` returns the error `e` if and only if `e` is the error of the store
  -- for a missing unit and the timer's unit is not stored.
  pub handle_timer-err_iff :
      (timer : TimerPayload) (w : World) (e : Error)
      → ((handle_timer json policy clock timer w).0 ≡ err e)
        ↔ ((get_workflow timer.unit_id w.memory ≡ err not_found) × (e ≡ not_found))
  unfolding handle_timer
  handle_timer-err_iff timer w e =
      let (there, back) = timed-err_iff timer (get_workflow timer.unit_id w.memory) w e in
      (
        λ q. missing_only timer.unit_id w.memory e (there q),
        λ (missing, same). back (rw same missing),
      )
