-- ===== src/App/Incidents/Service.antt =====
-- The methods of `Service` of internal/app/app.go keep the open incidents in order.
use forge_mini.Base.{ℕ, suc, ◌≤◌, String, refl, Bool-cases, inl, inr, arith}
use forge_mini.Base.Errors.{Result, ok, err}
use forge_mini.Base.Machine.{Time, is_zero}
use forge_mini.Signals.{OperationalSignal, Codec}
use forge_mini.Policy.{RetryPolicy}
use forge_mini.Workflow.State.{UnitWorkflow}
use forge_mini.Workflow.Decisions.{TimerPayload, TransitionResult}
use forge_mini.Workflow.Engine.{apply_signal, apply_timer}
use forge_mini.Workflow.Identity.{AnswersFor, apply_signal-AnswersFor, apply_timer-AnswersFor}
use forge_mini.Workflow.Outcome.{ResultIs}
use forge_mini.Store.{Memory, append_signal, signal_exists, get_workflow, get_open_incident_by_unit}
use forge_mini.App.Monad.{World, ◌>>=◌, lift, now}
use forge_mini.App.Commit.{commit_transition}
use forge_mini.App.Incidents.{Distinct, same_AllOpen, later_AllOpen}
use forge_mini.App.Incidents.Linked.{Tracked, commit_transition-Tracked}
use forge_mini.App.Once.{process_signal-cases}
use forge_mini.App.Shown.{InOrder, ReadStands, snapshot-Stands}
use forge_mini.App.Service.{stamp, process_signal, unless_seen, handle_signal, handle_timer}

module _ (clock : ℕ → Time) (N : ℕ) (distinct : Distinct clock N) (json : Codec)
    (policy : RetryPolicy) where
  abbrev T : World → Type 0
  T = Tracked clock N distinct

  waited :
      (m : Memory) (n k : ℕ)
      → n ≤ k
      → T (record { memory = m; ticks = n })
      → T (record { memory = m; ticks = k })
  waited m n k le tracked small =
      let (all, named) = tracked (omega (arith, le, small)) in
      (later_AllOpen clock n k m le all, named)

  answer_Tracked :
      (unit : String) (r : Result TransitionResult) (w : World)
      → ResultIs (AnswersFor unit) r
      → T w
      → T ((lift r >>= commit_transition clock unit) w).1
  answer_Tracked unit (ok r) w answers tracked =
      commit_transition-Tracked clock N distinct unit r w answers.0.0 tracked
  answer_Tracked unit (err e) w answers tracked = tracked

  appended_Tracked :
      (signal : OperationalSignal) (w : World)
      → T w
      → T (record w { memory = append_signal signal w.memory })
  unfolding append_signal get_open_incident_by_unit
  appended_Tracked signal w tracked small =
      let (all, named) = tracked small in
      (same_AllOpen clock w.ticks w.memory (append_signal signal w.memory) refl refl all, named)

  process_signal-Tracked :
      (signal : OperationalSignal) (w : World)
      → InOrder w.memory
      → T w
      → T (process_signal json policy clock signal w).1
  unfolding append_signal get_workflow
  process_signal-Tracked signal w order tracked =
      process_signal-cases json policy clock (λ r. T r.1) signal w
        (λ wf t n le read.
          let (fits, own) =
            snapshot-Stands clock json policy signal.unit_id (append_signal signal w.memory) wf read
              (order.0 signal.unit_id) in
          answer_Tracked signal.unit_id (apply_signal json policy wf signal t)
            (record { memory = append_signal signal w.memory; ticks = n })
            (apply_signal-AnswersFor json policy signal.unit_id signal t wf own)
            (waited (append_signal signal w.memory) w.ticks n le
              (appended_Tracked signal w tracked)))

  pub handle_signal-Tracked :
      (signal : OperationalSignal) (w : World)
      → InOrder w.memory
      → T w
      → T (handle_signal json policy clock signal w).1
  unfolding handle_signal stamp unless_seen
  handle_signal-Tracked signal w order tracked =
      let later = waited w.memory w.ticks (suc w.ticks) (omega arith) tracked in
      elim (Bool-cases (is_zero signal.received_at)) [
        | inl z ↦ elim (Bool-cases (signal_exists signal.id w.memory)) [
          | inl seen ↦ rw (z, seen, handle_signal, stamp) later
          | inr unseen ↦
              rw (z, unseen, handle_signal, stamp) (process_signal-Tracked _ _ order later)
        ]
        | inr z ↦ elim (Bool-cases (signal_exists signal.id w.memory)) [
          | inl seen ↦ rw (z, seen, handle_signal, stamp) tracked
          | inr unseen ↦
              rw (z, unseen, handle_signal, stamp) (process_signal-Tracked _ _ order tracked)
        ]
      ]

  timed_Tracked :
      (timer : TimerPayload) (r : Result UnitWorkflow) (w : World)
      → ReadStands timer.unit_id r
      → T w
      → T
          ((lift r >>= λ snapshot. now clock >>= λ t.
              commit_transition clock timer.unit_id (apply_timer snapshot timer t))
            w).1
  timed_Tracked timer (ok wf) w stands tracked =
      commit_transition-Tracked clock N distinct timer.unit_id _ _
        (apply_timer-AnswersFor timer.unit_id wf timer _ stands.1).0.0
        (waited w.memory w.ticks (suc w.ticks) (omega arith) tracked)
  timed_Tracked timer (err e) w stands tracked = tracked

  pub handle_timer-Tracked :
      (timer : TimerPayload) (w : World)
      → InOrder w.memory
      → T w
      → T (handle_timer json policy clock timer w).1
  unfolding handle_timer
  handle_timer-Tracked timer w order tracked =
      timed_Tracked timer (get_workflow timer.unit_id w.memory) w (order.0 timer.unit_id) tracked
