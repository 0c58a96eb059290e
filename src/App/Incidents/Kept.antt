-- ===== src/App/Incidents/Kept.antt =====
-- `commitTransition` of internal/app/app.go, for the open incidents.
use forge_mini.Base.{
  ℕ, String, ◌≡◌, refl, Option, none, some, Bool-cases, inl, inr, str_eq, List, [], ◌∷◌, arith, map,
  true,
}
use forge_mini.Base.Preserves.{Preserves, bind-Preserves}
use forge_mini.Base.Machine.{Time}
use forge_mini.Incidents.{Incident}
use forge_mini.Workflow.State.{UnitWorkflow, state_text}
use forge_mini.Workflow.Decisions.{WorkflowDecision, TimerRequest, HandleResult, TransitionResult}
use forge_mini.Store.{
  Memory, get_open_incident_by_unit, append_decision, cancel, schedule, put_workflow,
  put_unit_status, put_station_health, put_incident_view, delete_incident_view,
  list_decisions_by_workflow,
}
use forge_mini.App.Monad.{World, pure, modify}
use forge_mini.App.Commit.{
  append_decisions, cancel_all, schedule_all, act_on_incident, unit_view, station_view,
  rebuild_projections, refresh_incident_view, record_station, link_incident, save, link_and_save,
  commit_transition,
}
use forge_mini.App.Incidents.{Distinct}
use forge_mini.App.Incidents.Commit.{Holds, modify-Holds, now-Holds, act_on_incident-Holds}

-- a change of the store that does not touch the incidents
abbrev Apart : (Memory → Memory) → Type 0
Apart f =
    (m : Memory)
    → ((f m).incidents_by_id ≡ m.incidents_by_id)
      × ((f m).open_incident_by_unit ≡ m.open_incident_by_unit)

append_decisions-Apart : (ds : List WorkflowDecision) → Apart (append_decisions ds)
unfolding append_decisions append_decision
append_decisions-Apart [] m = (refl, refl)
append_decisions-Apart (d ∷ ds) m = append_decisions-Apart ds (append_decision d m)

cancel_all-Apart : (keys : List String) → Apart (cancel_all keys)
unfolding cancel_all cancel
cancel_all-Apart [] m = (refl, refl)
cancel_all-Apart (key ∷ keys) m = cancel_all-Apart keys (cancel key m)

schedule_all-Apart : (wf : UnitWorkflow) (reqs : List TimerRequest) → Apart (schedule_all wf reqs)
unfolding schedule_all schedule
schedule_all-Apart wf [] m = (refl, refl)
schedule_all-Apart wf (req ∷ reqs) m = schedule_all-Apart wf reqs _

refresh-Apart : (wf : UnitWorkflow) → Apart (refresh_incident_view wf)
unfolding refresh_incident_view put_incident_view delete_incident_view
refresh-Apart wf m = ground arith

module _ (clock : ℕ → Time) (N : ℕ) (distinct : Distinct clock N) (unit other : String)
    (Q : Option Incident → Type 0) where
  abbrev P : World → Type 0
  P = Holds clock N distinct unit other Q

  modified : (f : Memory → Memory) → Apart f → Preserves P (modify f)
  modified = modify-Holds clock N distinct unit other Q

  record_station-Holds : (wf : UnitWorkflow) → Preserves P (record_station clock wf)
  unfolding record_station put_station_health
  record_station-Holds wf w h = elim (Bool-cases (str_eq wf.current_station_id "")) [
    | inl e ↦ rw (record_station, e) h
    | inr e ↦
        rw (record_station, e)
          (modified (put_station_health (station_view wf (clock w.ticks))) (λ m. (refl, refl)) _
            (now-Holds clock N distinct unit other Q w h))
  ]

  rebuild_projections-Holds : (wf : UnitWorkflow) → Preserves P (rebuild_projections clock wf)
  unfolding rebuild_projections put_unit_status
  rebuild_projections-Holds wf w h =
      let ds = list_decisions_by_workflow wf.workflow_id w.memory in
      record_station-Holds wf _ (
        modified (refresh_incident_view wf) (refresh-Apart wf) _
          (modified (put_unit_status (unit_view wf ds)) (λ m. (refl, refl)) w h))

  link_incident-Holds :
      (wf : UnitWorkflow) (incident : Option Incident)
      → Preserves P (link_incident clock wf incident)
  unfolding link_incident delete_incident_view
  link_incident-Holds wf none w h = elim (Bool-cases (str_eq wf.open_incident_id "")) [
    | inl e ↦ rw (link_incident, e) h
    | inr e ↦
        rw (link_incident, e)
          (modified (delete_incident_view wf.open_incident_id) (λ m. (refl, refl)) w h)
  ]
  link_incident-Holds wf (some incident) w h = h

  save-Holds : (result : TransitionResult) (wf : UnitWorkflow) → Preserves P (save clock result wf)
  unfolding save put_workflow
  save-Holds result wf w h =
      let answer : HandleResult = record {
        accepted = true;
        workflow_state = state_text wf.state;
        decision_ids = map (λ d. d.id) result.decisions;
        incident_id = wf.open_incident_id;
      } in
      bind-Preserves P {A = Unit {0}} (rebuild_projections clock wf) (λ u. pure answer)
        (rebuild_projections-Holds wf) (λ u w h. h) _
        (modified (put_workflow wf) (λ m. (refl, refl)) w h)

  link_and_save-Holds : (result : TransitionResult) → Preserves P (link_and_save clock unit result)
  unfolding link_and_save
  link_and_save-Holds result w h =
      let incident = get_open_incident_by_unit unit w.memory in
      bind-Preserves P (link_incident clock result.next_workflow incident) (save clock result)
        (link_incident-Holds result.next_workflow incident) (save-Holds result) w h

  -- A commit for a unit keeps the incidents in order, and what holds of that of another unit.
  pub commit_transition-Holds :
      (result : TransitionResult)
      → result.next_workflow.unit_id ≡ unit
      → Preserves P (commit_transition clock unit result)
  unfolding commit_transition
  commit_transition-Holds result own w h =
      bind-Preserves P {A = Unit {0}}
        (act_on_incident clock result.next_workflow result.incident_action)
        (λ u. link_and_save clock unit result)
        (act_on_incident-Holds clock N distinct unit other Q result.next_workflow
          result.incident_action own)
        (λ u. link_and_save-Holds result) _
        (modified (schedule_all result.next_workflow result.timers_to_start)
          (schedule_all-Apart result.next_workflow result.timers_to_start) _
          (modified (cancel_all result.timers_to_cancel) (cancel_all-Apart result.timers_to_cancel)
            _
            (modified (append_decisions result.decisions) (append_decisions-Apart result.decisions)
              w h)))
