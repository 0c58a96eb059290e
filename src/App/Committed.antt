-- ===== src/App/Committed.antt =====
-- `commitTransition` of internal/app/app.go, in terms of the loops at its head.
use forge_mini.Base.{sym, ap, true, map, ℕ, String, ◌≡◌, refl, ◌∙◌, List, [], ◌∷◌, arith}
use forge_mini.Base.Machine.{Time}
use forge_mini.Workflow.State.{UnitWorkflow, state_text}
use forge_mini.Workflow.Decisions.{WorkflowDecision, TimerRequest, HandleResult, TransitionResult}
use forge_mini.Store.{
  Memory, append_decision, cancel, schedule, put_workflow, get_open_incident_by_unit,
  list_decisions_by_workflow,
}
use forge_mini.App.Monad.{World, pure}
use forge_mini.App.Commit.{
  append_decisions, cancel_all, schedule_all, act_on_incident, rebuild_projections, save,
  link_and_save, commit_transition,
}
use forge_mini.App.Effects.{
  Ends, Ends-map, bind-Ends, SameCore, SameAll, Rebuilt, id_of, linked, IsCommitted,
  act_on_incident-Ends, link_incident-Ends, rebuild_projections-Ends,
}

-- The parts of the store that the loops of `commitTransition` do not touch.
record Untouched (m m' : Memory) : Type 0 where
  signals_by_id : m'.signals_by_id ≡ m.signals_by_id
  signals_by_unit : m'.signals_by_unit ≡ m.signals_by_unit
  workflows : m'.workflows_by_unit ≡ m.workflows_by_unit
  unit_views : m'.unit_views ≡ m.unit_views

Untouched-trans : (a b c : Memory) → Untouched a b → Untouched b c → Untouched a c
Untouched-trans a b c p q = record {
  signals_by_id = q.signals_by_id ∙ p.signals_by_id;
  signals_by_unit = q.signals_by_unit ∙ p.signals_by_unit;
  workflows = q.workflows ∙ p.workflows;
  unit_views = q.unit_views ∙ p.unit_views;
}

append_decisions-Untouched :
    (ds : List WorkflowDecision) (m : Memory) → Untouched m (append_decisions ds m)
unfolding append_decisions append_decision
append_decisions-Untouched [] m = ground arith
append_decisions-Untouched (d ∷ ds) m =
    Untouched-trans m _ _ (ground arith) (append_decisions-Untouched ds (append_decision d m))

cancel_all-Untouched :
    (keys : List String) (m : Memory)
    → Untouched m (cancel_all keys m)
      × ((cancel_all keys m).decisions_by_workflow ≡ m.decisions_by_workflow)
unfolding cancel_all cancel
cancel_all-Untouched [] m = ground arith
cancel_all-Untouched (key ∷ keys) m =
    let (u, d) = cancel_all-Untouched keys (cancel key m) in
    (Untouched-trans m _ _ (ground arith) u, d)

schedule_all-Untouched :
    (wf : UnitWorkflow) (reqs : List TimerRequest) (m : Memory)
    → Untouched m (schedule_all wf reqs m)
      × ((schedule_all wf reqs m).decisions_by_workflow ≡ m.decisions_by_workflow)
unfolding schedule_all schedule
schedule_all-Untouched wf [] m = ground arith
schedule_all-Untouched wf (req ∷ reqs) m =
    let (u, d) = schedule_all-Untouched wf reqs _ in (Untouched-trans m _ _ (ground arith) u, d)

-- What the lookups read.
pub open_eq :
    (unit : String) (m m' : Memory)
    → m'.open_incident_by_unit ≡ m.open_incident_by_unit
    → m'.incidents_by_id ≡ m.incidents_by_id
    → get_open_incident_by_unit unit m' ≡ get_open_incident_by_unit unit m
unfolding get_open_incident_by_unit
open_eq unit m m' p q = λ i.
    get_open_incident_by_unit unit (record m { open_incident_by_unit = p i; incidents_by_id = q i })

pub decisions_eq :
    (workflow : String) (m m' : Memory)
    → m'.decisions_by_workflow ≡ m.decisions_by_workflow
    → list_decisions_by_workflow workflow m' ≡ list_decisions_by_workflow workflow m
unfolding list_decisions_by_workflow
decisions_eq workflow m m' p =
    λ i. list_decisions_by_workflow workflow (record m { decisions_by_workflow = p i })

module _ (clock : ℕ → Time) (result : TransitionResult) where
  -- what `save` answers and writes
  record IsSaved (wf : UnitWorkflow) (m m' : Memory) (h : HandleResult) : Type 0 where
    answered : h ≡ record {
      accepted = true;
      workflow_state = state_text wf.state;
      decision_ids = map (λ d. d.id) result.decisions;
      incident_id = wf.open_incident_id;
    }
    rebuilt : Rebuilt wf (put_workflow wf m) m'

  save-Ends :
      (wf : UnitWorkflow) (w : World)
      → Ends (λ h w'. IsSaved wf w.memory w'.memory h) (save clock result wf w)
  unfolding save
  save-Ends wf w =
      let stored : World = record w { memory = put_workflow wf w.memory } in
      let answer : HandleResult = record {
        accepted = true;
        workflow_state = state_text wf.state;
        decision_ids = map (λ d. d.id) result.decisions;
        incident_id = wf.open_incident_id;
      } in
      bind-Ends {A = Unit {0}} {B = HandleResult}
        (λ _ w'. Rebuilt wf (put_workflow wf w.memory) w'.memory)
        (λ h w'. IsSaved wf w.memory w'.memory h) (λ _. pure answer)
        (rebuild_projections clock wf stored) (λ a w' r. record { answered = refl; rebuilt = r })
        (rebuild_projections-Ends clock wf stored)

  module _ (unit : String) where
    link_and_save-Ends :
        (w : World)
        → let incident = id_of (get_open_incident_by_unit unit w.memory) in
          let wf = linked result.next_workflow incident in
          Ends
            (λ h w'. (m : Memory) × SameAll w.memory m × IsSaved wf m w'.memory h)
            (link_and_save clock unit result w)
    unfolding link_and_save
    link_and_save-Ends w =
        let incident = get_open_incident_by_unit unit w.memory in
        let wf = linked result.next_workflow (id_of incident) in
        bind-Ends (λ wf' w'. (wf' ≡ wf) × SameAll w.memory w'.memory) _ (save clock result) _
          (λ wf' w' (e, same). rw e (
            Ends-map _ _ (save clock result wf w') (λ h w'' saved. (w'.memory, same, saved))
              (save-Ends wf w')))
          (link_incident-Ends clock result.next_workflow incident w)

    -- what the loops at the head of `commitTransition` make of the store
    abbrev written : Memory → Memory
    written m =
        schedule_all result.next_workflow result.timers_to_start
          (cancel_all result.timers_to_cancel (append_decisions result.decisions m))

    written-Untouched :
        (m : Memory)
        → Untouched m (written m)
          × ((written m).decisions_by_workflow
              ≡ (append_decisions result.decisions m).decisions_by_workflow)
    written-Untouched m =
        let a = append_decisions-Untouched result.decisions m in
        let (c, d) =
          cancel_all-Untouched result.timers_to_cancel (append_decisions result.decisions m) in
        let (e, f) = schedule_all-Untouched result.next_workflow result.timers_to_start _ in
        (Untouched-trans _ _ _ (Untouched-trans _ _ _ a c) e, f ∙ d)

    -- the parts of a commit, put together
    committed :
        (m0 m4 m5 m7 : Memory) (h : HandleResult)
        → SameCore (written m0) m4
        → SameAll m4 m5
        → IsSaved (linked result.next_workflow (id_of (get_open_incident_by_unit unit m4))) m5 m7 h
        → IsCommitted unit result m0 m7 h
    unfolding put_workflow
    committed m0 m4 m5 m7 h same4 same5 saved =
        let (u, d) = written-Untouched m0 in
        let id : h.incident_id ≡ id_of (get_open_incident_by_unit unit m4) =
          ap (λ r. r.incident_id) saved.answered in
        let wf = linked result.next_workflow (id_of (get_open_incident_by_unit unit m4)) in
        let decisions =
          decisions_eq result.next_workflow.workflow_id (put_workflow wf m5) m7
            saved.rebuilt.decisions in
        let opened = saved.rebuilt.open_incidents ∙ same5.open_incidents in
        let incidents = saved.rebuilt.incidents ∙ same5.incidents in
        record {
          accepted = ap (λ r. r.accepted) saved.answered;
          shown = ap (λ r. r.workflow_state) saved.answered;
          listed = ap (λ r. r.decision_ids) saved.answered;
          signals_by_id =
              saved.rebuilt.signals_by_id ∙ same5.core.signals_by_id ∙ same4.signals_by_id
              ∙ u.signals_by_id;
          signals_by_unit =
              saved.rebuilt.signals_by_unit ∙ same5.core.signals_by_unit ∙ same4.signals_by_unit
              ∙ u.signals_by_unit;
          decided = saved.rebuilt.decisions ∙ same5.core.decisions ∙ same4.decisions ∙ d;
          incident = id ∙ ap id_of (sym (open_eq unit m4 m7 opened incidents));
          stored =
              rw (saved.rebuilt.workflows, id, same5.core.workflows, same4.workflows, u.workflows)
                refl;
          viewed =
              rw (id, decisions, sym (same5.core.unit_views ∙ same4.unit_views ∙ u.unit_views))
                saved.rebuilt.viewed;
          scheduled = saved.rebuilt.timers ∙ same5.core.timers ∙ same4.timers;
        }

    -- For every answer of the engine and every store, `commitTransition` returns no error. The answer
    -- shows the engine's state and lists its decisions; the decisions are appended, the timers
    -- cancelled and then scheduled; the snapshot is stored with the unit's open incident after the
    -- commit linked, the dashboard row is that of the stored snapshot with the last of all its
    -- decisions, and the signals are untouched.
    pub commit_transition-IsCommitted :
        (w : World)
        → Ends
            (λ h w'. IsCommitted unit result w.memory w'.memory h)
            (commit_transition clock unit result w)
    unfolding commit_transition
    commit_transition-IsCommitted w =
        let prepared : World = record w { memory = written w.memory } in
        bind-Ends {A = Unit {0}} {B = HandleResult} (λ _ w'. SameCore (written w.memory) w'.memory)
          (λ h w'. IsCommitted unit result w.memory w'.memory h)
          (λ _. link_and_save clock unit result)
          (act_on_incident clock result.next_workflow result.incident_action prepared)
          (λ _ w4 same4.
            Ends-map _ _ (link_and_save clock unit result w4)
              (λ h w7 (m5, same5, saved).
                committed w.memory w4.memory m5 w7.memory h same4 same5 saved)
              (link_and_save-Ends w4))
          (act_on_incident-Ends clock result.next_workflow result.incident_action prepared)
