-- ===== src/App/Recorded.antt =====
-- `commitTransition` of internal/app/app.go, as a whole: what it answers, and what it leaves in the store.
use forge_mini.Base.{ℕ, String, ◌≡◌, refl, ◌∙◌, ap, true, map, ◌++◌, List, [], ◌∷◌}
use forge_mini.Base.Dict.{lookup, insert}
use forge_mini.Base.Errors.{Result, ok, err}
use forge_mini.Base.Machine.{Time}
use forge_mini.Workflow.State.{UnitWorkflow, state_text}
use forge_mini.Workflow.Decisions.{
  WorkflowDecision, TimerRequest, TimerPayload, HandleResult, TransitionResult,
}
use forge_mini.Workflow.TimerMap.{timer_after, erase_all, insert_all, lookup-followed}
use forge_mini.Store.{
  Memory, append_decision, cancel, schedule, put_timer, delete_timer, list_decisions_by_workflow,
  get_open_incident_by_unit,
}
use forge_mini.App.Monad.{World}
use forge_mini.App.Commit.{append_decisions, cancel_all, schedule_all, unit_view, commit_transition}
use forge_mini.App.Effects.{Ends, Ends-map, IsCommitted, id_of, linked}
use forge_mini.App.Committed.{decisions_eq, commit_transition-IsCommitted}
use forge_mini.App.Filed.{filed, append_decisions-filed}
use forge_mini.App.Shown.{row_of, unit_view-row_of}
use forge_mini.App.Mirror.Commit.{IsMirrored, commit_transition-IsMirrored}

-- the timer that a request asks for, of the unit of a snapshot
abbrev pub timer_of : UnitWorkflow → TimerRequest → TimerPayload
timer_of wf req = record {
  key = req.key;
  workflow_id = wf.workflow_id;
  unit_id = wf.unit_id;
  timer_type = req.timer_type;
  station_id = req.station_id;
  fire_at = req.fire_at;
}

append_decisions-timers :
    (ds : List WorkflowDecision) (m : Memory)
    → (append_decisions ds m).timers_by_key ≡ m.timers_by_key
unfolding append_decisions append_decision
append_decisions-timers [] m = refl
append_decisions-timers (d ∷ ds) m = append_decisions-timers ds (append_decision d m)

cancel_all-timers :
    (keys : List String) (m : Memory)
    → (cancel_all keys m).timers_by_key ≡ erase_all keys m.timers_by_key
unfolding cancel_all cancel delete_timer
cancel_all-timers [] m = refl
cancel_all-timers (key ∷ keys) m = cancel_all-timers keys (cancel key m)

schedule_all-timers :
    (wf : UnitWorkflow) (reqs : List TimerRequest) (m : Memory)
    → (schedule_all wf reqs m).timers_by_key ≡ insert_all (timer_of wf) reqs m.timers_by_key
unfolding schedule_all schedule put_timer
schedule_all-timers wf [] m = refl
schedule_all-timers wf (req ∷ reqs) m = schedule_all-timers wf reqs _

-- the timers once a commit is done, by their keys
followed_timers :
    (result : TransitionResult) (m m' : Memory)
    → m'.timers_by_key
      ≡ (schedule_all result.next_workflow result.timers_to_start
          (cancel_all result.timers_to_cancel (append_decisions result.decisions m))).timers_by_key
    → (key : String)
    → lookup key m'.timers_by_key
      ≡ timer_after (timer_of result.next_workflow) result key (lookup key m.timers_by_key)
followed_timers result m m' e key =
    let m1 = append_decisions result.decisions m in
    let m2 = cancel_all result.timers_to_cancel m1 in
    let insert_in = insert_all (timer_of result.next_workflow) result.timers_to_start in
    ap (lookup key) (
      e
      ∙ schedule_all-timers result.next_workflow result.timers_to_start m2
      ∙ ap insert_in (
          cancel_all-timers result.timers_to_cancel m1
          ∙ ap (erase_all result.timers_to_cancel) (append_decisions-timers result.decisions m)))
    ∙ lookup-followed (timer_of result.next_workflow) result m.timers_by_key key

-- What a commit of an answer for a unit returns and leaves, read back from the store.
pub record IsRecorded (clock : ℕ → Time) (unit : String) (result : TransitionResult) (m m' : Memory)
    (h : HandleResult) : Type 0 where
  pub accepted : h.accepted ≡ true
  pub shown : h.workflow_state ≡ state_text result.next_workflow.state
  pub listed : h.decision_ids ≡ map (λ d. d.id) result.decisions
  pub signals_by_id : m'.signals_by_id ≡ m.signals_by_id
  pub signals_by_unit : m'.signals_by_unit ≡ m.signals_by_unit
  pub decided :
      (workflow : String)
      → list_decisions_by_workflow workflow m'
        ≡ list_decisions_by_workflow workflow m ++ filed workflow result.decisions
  pub scheduled :
      (key : String)
      → lookup key m'.timers_by_key
        ≡ timer_after (timer_of result.next_workflow) result key (lookup key m.timers_by_key)
  pub incident : h.incident_id ≡ id_of (get_open_incident_by_unit unit m')
  pub stored :
      m'.workflows_by_unit
      ≡ insert unit (linked result.next_workflow h.incident_id) m.workflows_by_unit
  pub viewed :
      m'.unit_views
      ≡ insert unit
          (row_of
            (linked result.next_workflow h.incident_id)
            (list_decisions_by_workflow result.next_workflow.workflow_id m'))
          m.unit_views
  pub mirrored : IsMirrored clock unit result m m' h

both :
    {A : Type 0} (P Q : A → World → Type 0) (r : Result A × World)
    → Ends P r
    → Ends Q r
    → Ends (λ a w. P a w × Q a w) r
both P Q (ok a, w) p q = (p, q)
both P Q (err e, w) p q = p

module _ (clock : ℕ → Time) (unit : String) (result : TransitionResult)
    (own : result.next_workflow.unit_id ≡ unit) where
  recorded :
      (m m' : Memory) (h : HandleResult)
      → IsCommitted unit result m m' h
      → IsMirrored clock unit result m m' h
      → IsRecorded clock unit result m m' h
  recorded m m' h c mirrored =
      let wf = linked result.next_workflow h.incident_id in
      let ds = list_decisions_by_workflow result.next_workflow.workflow_id m' in
      record {
        accepted = c.accepted;
        shown = c.shown;
        listed = c.listed;
        signals_by_id = c.signals_by_id;
        signals_by_unit = c.signals_by_unit;
        decided = λ workflow.
            decisions_eq workflow (append_decisions result.decisions m) m' c.decided
            ∙ append_decisions-filed workflow result.decisions m;
        scheduled = followed_timers result m m' c.scheduled;
        incident = c.incident;
        stored = c.stored ∙ ap (λ u. insert u wf m.workflows_by_unit) own;
        viewed =
            c.viewed
            ∙ ap (λ u. insert u (unit_view wf ds) m.unit_views) own
            ∙ ap (λ row. insert unit row m.unit_views) (unit_view-row_of wf ds);
        mirrored = mirrored;
      }

  -- For every store and every answer of the engine whose snapshot is of the unit, `commitTransition`
  -- returns no error. The answer shows the engine's state, and lists its decisions and the unit's open
  -- incident. In the store: each workflow lists what it did and then its decisions of the answer; a
  -- timer that is started is set, one that is only cancelled is gone, and another is what it was; an
  -- incident is opened, shown or resolved as the answer's action says, and no other incident changes;
  -- the snapshot is stored with the unit's open incident linked, and the dashboards' rows of the unit,
  -- of the incident and of the station at which the unit is are those of the stored snapshot. Signals
  -- and all other rows and snapshots are what they were.
  pub commit_transition-IsRecorded :
      (w : World)
      → Ends
          (λ h w'. IsRecorded clock unit result w.memory w'.memory h)
          (commit_transition clock unit result w)
  commit_transition-IsRecorded w =
      let committed =
        λ (h : HandleResult) (w' : World). IsCommitted unit result w.memory w'.memory h in
      let mirrored =
        λ (h : HandleResult) (w' : World). IsMirrored clock unit result w.memory w'.memory h in
      Ends-map (λ h w'. committed h w' × mirrored h w')
        (λ h w'. IsRecorded clock unit result w.memory w'.memory h)
        (commit_transition clock unit result w) (λ h w' (c, i). recorded w.memory w'.memory h c i)
        (both committed mirrored (commit_transition clock unit result w)
          (commit_transition-IsCommitted clock result unit w)
          (commit_transition-IsMirrored clock result unit own w))
