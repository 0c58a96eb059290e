-- ===== src/App/Shown.antt =====
-- The units of the in-process runtime of internal/app/app.go: how every stored snapshot stands, and
-- how the dashboard shows it.
use mathlib.Core.Path.{subst}
use mathlib.Core.Option.{map as map_option}
use forge_mini.Base.{
  String, concat, eq_iff, arith, ◌≡◌, refl, ap, inl, inr, ℕ, List, [], ◌∷◌, ◌∙◌, sym, false, Option,
  Bool-cases, none, some, str_eq,
}
use forge_mini.Base.Dict.{lookup, lookup-insert}
use forge_mini.Base.Errors.{Result, ok, err}
use forge_mini.Base.Machine.{Time, is_zero}
use forge_mini.Signals.{OperationalSignal, Codec}
use forge_mini.Policy.{RetryPolicy}
use forge_mini.Projections.{UnitStatusView}
use forge_mini.Workflow.State.{UnitWorkflow, state_text, attempt_at, new}
use forge_mini.Workflow.Decisions.{
  WorkflowDecision, decision_text, HandleResult, TransitionResult, TimerPayload,
}
use forge_mini.Workflow.Engine.{apply_signal, apply_timer}
use forge_mini.Workflow.Outcome.{ResultIs, NextIs}
use forge_mini.Workflow.Identity.{IsOf, AnswersFor, apply_signal-AnswersFor, apply_timer-AnswersFor}
use forge_mini.App.Filed.{append_decisions-other, other_workflow}
use forge_mini.Workflow.Holds.{FitsIn, GivesReasons, apply_signal-FitsIn, apply_timer-FitsIn}
use forge_mini.Store.Reads.{get_workflow-insert}
use forge_mini.Store.{
  Memory, append_signal, signal_exists, get_workflow, found, list_decisions_by_workflow,
}
use forge_mini.App.Monad.{World, ◌>>=◌, lift, now}
use forge_mini.App.Commit.{append_decisions, commit_transition, unit_view, last_decision_type}
use forge_mini.App.Effects.{IsCommitted, linked}
use forge_mini.App.Committed.{decisions_eq, commit_transition-IsCommitted}
use forge_mini.App.Once.{Ends-after, process_signal-cases, IsSnapshot}
use forge_mini.App.Service.{stamp, process_signal, unless_seen, handle_signal, handle_timer}

-- A snapshot of a unit is in order: it is filed under the unit, and its station and hold reason fit its
-- state.
abbrev pub Stands : String → UnitWorkflow → Type 0
Stands unit wf = FitsIn wf × IsOf unit wf

abbrev pub ReadStands : String → Result UnitWorkflow → Type 0
ReadStands unit (ok wf) = Stands unit wf
ReadStands unit (err e) = Unit

-- Every stored snapshot is in order.
abbrev pub AllStand : Memory → Type 0
AllStand m = (unit : String) → ReadStands unit (get_workflow unit m)

-- the type of the latest of some decisions, which are in the order in which they were stored
abbrev pub latest : String → List WorkflowDecision → String
unfolding decision_text
latest so_far [] = so_far
latest so_far (d ∷ ds) = latest (decision_text d.decision_type) ds

-- the row of a snapshot and of the decisions of its workflow
abbrev pub row_of : UnitWorkflow → List WorkflowDecision → UnitStatusView
unfolding state_text
row_of wf decisions = record {
  unit_id = wf.unit_id;
  workflow_state = state_text wf.state;
  current_station_id = wf.current_station_id;
  active_hold_reason = wf.active_hold_reason;
  open_incident_id = wf.open_incident_id;
  retry_count = elim (lookup "test" wf.attempt_count_by_station) [ none ↦ 0 | some n ↦ n ];
  last_signal_type = wf.last_signal_type;
  last_decision_type = latest "" decisions;
  last_updated_at = wf.updated_at;
}

-- the row that a store should have for a snapshot
abbrev pub row_in : Memory → UnitWorkflow → UnitStatusView
row_in m wf = row_of wf (list_decisions_by_workflow wf.workflow_id m)

-- The dashboard has a row for each stored snapshot, of that snapshot, and no others.
abbrev pub AllShown : Memory → Type 0
AllShown m =
    (unit : String)
    → lookup unit m.unit_views ≡ map_option (row_in m) (lookup unit m.workflows_by_unit)

abbrev pub InOrder : Memory → Type 0
InOrder m = AllStand m × AllShown m

last_decision_type-latest :
    (so_far : String) (d : WorkflowDecision) (ds : List WorkflowDecision)
    → last_decision_type (d ∷ ds) ≡ latest so_far (d ∷ ds)
unfolding last_decision_type
last_decision_type-latest so_far d [] = refl
last_decision_type-latest so_far d (e ∷ ds) =
    last_decision_type-latest (decision_text d.decision_type) e ds

pub unit_view-row_of :
    (wf : UnitWorkflow) (ds : List WorkflowDecision) → unit_view wf ds ≡ row_of wf ds
unfolding unit_view attempt_at last_decision_type
unit_view-row_of wf [] = refl
unit_view-row_of wf (d ∷ ds) =
    ap (λ t. record (row_of wf (d ∷ ds)) { last_decision_type = t })
      (last_decision_type-latest "" d ds)

-- a commit of an answer for a unit
module _ (unit : String) (result : TransitionResult) (m m' : Memory) (h : HandleResult)
    (c : IsCommitted unit result m m' h) (f : FitsIn result.next_workflow)
    (answers : AnswersFor unit result) where
  committed_AllStand : AllStand m → AllStand m'
  committed_AllStand all u =
      let key = result.next_workflow.unit_id in
      let stored = linked result.next_workflow h.incident_id in
      elim (Bool-cases (str_eq key u)) [
        | inl q ↦
            rw (get_workflow-insert u key stored m m' c.stored, q)
              (f, (ground (arith, eq_iff key u), ground (arith, eq_iff key u, answers.0)))
        | inr q ↦ rw (get_workflow-insert u key stored m m' c.stored, q) (all u)
      ]

  other_row :
      (u : String) (o : Option UnitWorkflow)
      → str_eq result.next_workflow.unit_id u ≡ false
      → ReadStands u (found o)
      → map_option (row_in m') o ≡ map_option (row_in m) o
  unfolding found
  other_row u none ne stands = refl
  other_row u (some wf) ne (fits, (own, filed)) =
      let other : str_eq (concat "wf-" unit) wf.workflow_id ≡ false =
        rw filed (other_workflow unit u (rw (← answers.0.0) ne)) in
      ap (λ ds. some (row_of wf ds))
        (decisions_eq wf.workflow_id (append_decisions result.decisions m) m' c.decided
          ∙ append_decisions-other (concat "wf-" unit) wf.workflow_id result.decisions m answers.1
              other)

  committed_AllShown : AllStand m → AllShown m → AllShown m'
  unfolding list_decisions_by_workflow get_workflow
  committed_AllShown stand all u = elim (Bool-cases (str_eq result.next_workflow.unit_id u)) [
    | inl e ↦
        rw (c.stored, c.viewed, lookup-insert, lookup-insert, e) (ap some (unit_view-row_of _ _))
    | inr e ↦
        rw (c.stored, c.viewed, lookup-insert, lookup-insert, e)
          (all u ∙ sym (other_row u (lookup u m.workflows_by_unit) e (stand u)))
  ]

module _ (clock : ℕ → Time) where
  -- A commit of a snapshot in order leaves the store in order.
  commit_transition-InOrder :
      (unit : String) (result : TransitionResult) (w : World)
      → FitsIn result.next_workflow
      → AnswersFor unit result
      → InOrder w.memory
      → InOrder (commit_transition clock unit result w).1.memory
  commit_transition-InOrder unit result w f answers (stand, shown) =
      Ends-after (λ h w'. IsCommitted unit result w.memory w'.memory h) InOrder
        (commit_transition clock unit result w) (commit_transition-IsCommitted clock result unit w)
        (λ h w' c. (
          committed_AllStand unit result w.memory w'.memory h c f answers stand,
          committed_AllShown unit result w.memory w'.memory h c f answers stand shown,
        ))

  module _ (json : Codec) (policy : RetryPolicy) where
    -- the snapshot that the engine is given
    pub snapshot-Stands :
        (unit : String) (m : Memory) (wf : UnitWorkflow)
        → IsSnapshot unit m wf
        → ReadStands unit (get_workflow unit m)
        → Stands unit wf
    unfolding new
    snapshot-Stands unit m wf (inl e) f = subst (ReadStands unit) e f
    snapshot-Stands unit m wf (inr (e, (t, q))) f = rw q ((refl, refl), (refl, refl))

    answer_InOrder :
        (unit : String) (r : Result TransitionResult) (w : World)
        → NextIs FitsIn r
        → ResultIs (AnswersFor unit) r
        → InOrder w.memory
        → InOrder ((lift r >>= commit_transition clock unit) w).1.memory
    answer_InOrder unit (ok r) w f answers all = commit_transition-InOrder unit r w f answers all
    answer_InOrder unit (err e) w f answers all = all

    appended_InOrder :
        (signal : OperationalSignal) (m : Memory) → InOrder m → InOrder (append_signal signal m)
    unfolding append_signal get_workflow list_decisions_by_workflow
    appended_InOrder signal m all = all

    process_signal-InOrder :
        (signal : OperationalSignal) (w : World)
        → GivesReasons policy
        → InOrder w.memory
        → InOrder (process_signal json policy clock signal w).1.memory
    process_signal-InOrder signal w g all =
        let (stand, shown) = appended_InOrder signal w.memory all in
        process_signal-cases json policy clock (λ r. InOrder r.1.memory) signal w
          (λ wf t n _ read.
            let (fits, own) = snapshot-Stands signal.unit_id _ wf read (stand signal.unit_id) in
            answer_InOrder signal.unit_id (apply_signal json policy wf signal t)
              (record { memory = append_signal signal w.memory; ticks = n })
              (apply_signal-FitsIn json policy wf signal t g fits)
              (apply_signal-AnswersFor json policy signal.unit_id signal t wf own) (stand, shown))

    pub handle_signal-InOrder :
        (signal : OperationalSignal) (w : World)
        → GivesReasons policy
        → InOrder w.memory
        → InOrder (handle_signal json policy clock signal w).1.memory
    unfolding handle_signal stamp unless_seen
    handle_signal-InOrder signal w g all = elim (Bool-cases (is_zero signal.received_at)) [
      | inl z ↦ elim (Bool-cases (signal_exists signal.id w.memory)) [
        | inl seen ↦ rw (z, seen, handle_signal, stamp) all
        | inr unseen ↦ rw (z, unseen, handle_signal, stamp) (process_signal-InOrder _ _ g all)
      ]
      | inr z ↦ elim (Bool-cases (signal_exists signal.id w.memory)) [
        | inl seen ↦ rw (z, seen, handle_signal, stamp) all
        | inr unseen ↦ rw (z, unseen, handle_signal, stamp) (process_signal-InOrder _ _ g all)
      ]
    ]

    timed_InOrder :
        (timer : TimerPayload) (r : Result UnitWorkflow) (w : World)
        → ReadStands timer.unit_id r
        → InOrder w.memory
        → InOrder
            ((lift r >>= λ snapshot. now clock >>= λ t.
                commit_transition clock timer.unit_id (apply_timer snapshot timer t))
              w).1.memory
    timed_InOrder timer (ok wf) w f all =
        commit_transition-InOrder timer.unit_id _ _ (apply_timer-FitsIn wf timer _ f.0)
          (apply_timer-AnswersFor timer.unit_id wf timer _ f.1) all
    timed_InOrder timer (err e) w f all = all

    pub handle_timer-InOrder :
        (timer : TimerPayload) (w : World)
        → InOrder w.memory
        → InOrder (handle_timer json policy clock timer w).1.memory
    unfolding handle_timer
    handle_timer-InOrder timer w all =
        timed_InOrder timer (get_workflow timer.unit_id w.memory) w (all.0 timer.unit_id) all
