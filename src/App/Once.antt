-- ===== src/App/Once.antt =====
-- `HandleSignal` of internal/app/app.go and the signals it has seen.
use mathlib.Core.Path.{subst}
use forge_mini.Base.{
  String, true, ◌≡◌, refl, sym, ◌⊎◌, inl, inr, ℕ, suc, ◌≤◌, arith, eq_refl, Bool-cases,
}
use forge_mini.Base.Dict.{lookup-insert}
use forge_mini.Base.Errors.{not_found, Result, ok, err}
use forge_mini.Base.Machine.{Time, is_zero}
use forge_mini.Signals.{OperationalSignal, Codec}
use forge_mini.Policy.{RetryPolicy}
use forge_mini.Workflow.State.{UnitWorkflow, new}
use forge_mini.Workflow.Decisions.{HandleResult, TransitionResult}
use forge_mini.Workflow.Engine.{apply_signal}
use forge_mini.Store.Reads.{get_workflow-cases}
use forge_mini.Store.{Memory, append_signal, signal_exists, get_workflow}
use forge_mini.App.Monad.{World, Action, ◌>>=◌, lift, now}
use forge_mini.App.Commit.{commit_transition}
use forge_mini.App.Effects.{Ends}
use forge_mini.App.Committed.{commit_transition-IsCommitted}
use forge_mini.App.Service.{
  stamp, load_or_new, process_signal, unless_seen, handle_signal, duplicate_result,
}

-- what holds of the store after a method that may return an error
pub Ends-after {ℓ} :
    {A : Type ℓ} (P : A → World → Type 0) (Q : Memory → Type 0) (r : Result A × World)
    → Ends P r
    → ((a : A) (w : World) → P a w → Q w.memory)
    → Q r.1.memory
Ends-after P Q (ok a, w) h f = f a w h
Ends-after P Q (err e, w) h f = absurd h

-- the snapshot that `HandleSignal` gives to the engine
abbrev pub IsSnapshot : String → Memory → UnitWorkflow → Type 0
IsSnapshot unit m wf =
    (get_workflow unit m ≡ ok wf)
    ⊎ ((get_workflow unit m ≡ err not_found) × ((t : Time) × (wf ≡ new unit t)))

-- an action whose first part gives a value, and then the rest
then_rest {ℓ κ} :
    {A : Type ℓ} {B : Type κ} (Q : Result B × World → Type 0) (f : A → Action B)
    (r : Result A × World) (a : A) (w' : World)
    → r ≡ (ok a, w')
    → Q (f a w')
    → Q (((λ _. r) >>= f) w')
then_rest Q f r a w' e h = subst (λ r. Q (((λ _. r) >>= f) w')) (sym e) h

module _ (json : Codec) (policy : RetryPolicy) (clock : ℕ → Time) where
  load_or_new-ok :
      (unit : String) (w : World) (wf : UnitWorkflow)
      → get_workflow unit w.memory ≡ ok wf
      → load_or_new json policy clock unit w ≡ (ok wf, w)
  unfolding load_or_new
  load_or_new-ok unit w wf e = rw (e, load_or_new) refl

  load_or_new-new :
      (unit : String) (w : World)
      → get_workflow unit w.memory ≡ err not_found
      → load_or_new json policy clock unit w
        ≡ (ok (new unit (clock w.ticks)), record w { ticks = suc w.ticks })
  unfolding load_or_new
  load_or_new-new unit w e = rw (e, load_or_new) refl

  -- A new signal is stored, and then the engine's answer is committed or its error returned.
  pub process_signal-cases :
      (Q : Result HandleResult × World → Type 0) (signal : OperationalSignal) (w : World)
      → ((wf : UnitWorkflow) (t : Time) (n : ℕ)
          → w.ticks ≤ n
          → IsSnapshot signal.unit_id (append_signal signal w.memory) wf
          → Q (
              (lift (apply_signal json policy wf signal t)
                  >>= commit_transition clock signal.unit_id)
                (record { memory = append_signal signal w.memory; ticks = n })))
      → Q (process_signal json policy clock signal w)
  unfolding process_signal
  process_signal-cases Q signal w h =
      let stored : World = record w { memory = append_signal signal w.memory } in
      let go_on : UnitWorkflow → Action HandleResult = λ snapshot. now clock >>= λ t.
      lift (apply_signal json policy snapshot signal t)
      >>= commit_transition clock signal.unit_id in
      let created = new signal.unit_id (clock w.ticks) in
      elim (get_workflow-cases signal.unit_id stored.memory) [
        | inl (wf, e) ↦
            then_rest Q go_on (load_or_new json policy clock signal.unit_id stored) wf stored
              (load_or_new-ok signal.unit_id stored wf e) (h wf _ _ (omega arith) (inl e))
        | inr e ↦
            then_rest Q go_on (load_or_new json policy clock signal.unit_id stored) created
              (record stored { ticks = suc w.ticks }) (load_or_new-new signal.unit_id stored e)
              (h created _ _ (omega arith) (inr (e, (clock w.ticks, refl))))
      ]

  -- What a signal was remembered by stays, whatever the engine answers.
  answer_remembers :
      (unit : String) (r : Result TransitionResult) (w : World)
      → ((lift r >>= commit_transition clock unit) w).1.memory.signals_by_id
        ≡ w.memory.signals_by_id
  answer_remembers unit (ok r) w =
      Ends-after _ (λ m. m.signals_by_id ≡ w.memory.signals_by_id)
        (commit_transition clock unit r w) (commit_transition-IsCommitted clock r unit w)
        (λ h w' c. c.signals_by_id)
  answer_remembers unit (err e) w = refl

  process_signal-remembers :
      (signal : OperationalSignal) (w : World)
      → signal_exists signal.id (process_signal json policy clock signal w).1.memory ≡ true
  unfolding signal_exists append_signal
  process_signal-remembers signal w =
      process_signal-cases (λ r. signal_exists signal.id r.1.memory ≡ true) signal w
        (λ wf t n _ _.
          let stored : World = record { memory = append_signal signal w.memory; ticks = n } in
          rw
            (
              answer_remembers signal.unit_id (apply_signal json policy wf signal t) stored,
              lookup-insert signal.id signal.id signal w.memory.signals_by_id,
              eq_refl signal.id,
              signal_exists,
            )
            refl)

  -- the answer to a signal that was seen, which leaves the store as it is
  pub handle_signal-seen :
      (signal : OperationalSignal) (w : World)
      → signal_exists signal.id w.memory ≡ true
      → ((handle_signal json policy clock signal w).0 ≡ ok duplicate_result)
        × ((handle_signal json policy clock signal w).1.memory ≡ w.memory)
  unfolding handle_signal stamp unless_seen
  handle_signal-seen signal w seen = elim (Bool-cases (is_zero signal.received_at)) [
    | inl z ↦ rw (z, seen, handle_signal, stamp) (refl, refl)
    | inr z ↦ rw (z, seen, handle_signal, stamp) (refl, refl)
  ]

  handle_signal-remembers :
      (signal : OperationalSignal) (w : World)
      → signal_exists signal.id (handle_signal json policy clock signal w).1.memory ≡ true
  unfolding handle_signal stamp unless_seen
  handle_signal-remembers signal w = elim (Bool-cases (signal_exists signal.id w.memory)) [
    | inl seen ↦ rw (handle_signal-seen signal w seen).1 seen
    | inr unseen ↦ elim (Bool-cases (is_zero signal.received_at)) [
      | inl z ↦ rw (z, unseen, handle_signal, stamp) (process_signal-remembers _ _)
      | inr z ↦ rw (z, unseen, handle_signal, stamp) (process_signal-remembers _ _)
    ]
  ]

  -- After any call of `HandleSignal`, whether it returned an answer or an error, a second call with the
  -- same signal returns the answer for a duplicate and leaves the store as it is.
  pub handle_signal_again :
      (signal : OperationalSignal) (w : World)
      → let w' = (handle_signal json policy clock signal w).1 in
        ((handle_signal json policy clock signal w').0 ≡ ok duplicate_result)
        × ((handle_signal json policy clock signal w').1.memory ≡ w'.memory)
  handle_signal_again signal w =
      handle_signal-seen signal (handle_signal json policy clock signal w).1
        (handle_signal-remembers signal w)
