-- ===== src/App/Mirror/Commit.antt =====
-- `commitTransition` of internal/app/app.go, for the incidents and the rows of incidents and stations.
use mathlib.Core.Path.{subst}
use forge_mini.Base.Dict.{Dict, insert, erase}
use forge_mini.Projections.{IncidentDashboardItem}
use forge_mini.Base.{
  ℕ, String, ◌≡◌, refl, sym, ◌∙◌, ap, true, Option, none, some, str_eq, List, [], ◌∷◌, map,
}
use forge_mini.Base.Machine.{Time}
use forge_mini.Incidents.{Incident}
use forge_mini.Workflow.State.{UnitWorkflow, state_text}
use forge_mini.Workflow.Decisions.{
  IncidentAction, IncidentActionType, unset, none_action, upsert, close, WorkflowDecision,
  TimerRequest, HandleResult, TransitionResult,
}
use forge_mini.Store.{
  Memory, append_decision, cancel, schedule, get_open_incident_by_unit, put_workflow,
}
use forge_mini.App.Monad.{World, pure}
use forge_mini.App.Commit.{
  append_decisions, cancel_all, schedule_all, act_on_incident, rebuild_projections, save,
  link_and_save, commit_transition,
}
use forge_mini.App.Committed.{open_eq}
use forge_mini.App.Effects.{Ends, Ends-map, bind-Ends, id_of, linked}
use forge_mini.App.Mirror.{SameIncidents, Acted, rows_after, StationsAfter}
use forge_mini.App.Mirror.Steps.{
  SameRows, act_on_incident-Acted, unlinked, rebuild-Mirrored, link-Mirrored, since,
}

-- What a commit for a unit does to the incidents and their rows, and to the rows of stations; `wf` is the
-- snapshot with the open incident linked.
pub record IsMirrored (clock : ℕ → Time) (unit : String) (result : TransitionResult) (m m' : Memory)
    (h : HandleResult) : Type 0 where
  pub acted :
      Acted clock result.next_workflow result.incident_action result.incident_action.type
        (get_open_incident_by_unit unit m)
        m
        m'
  pub rows :
      m'.incident_views
      ≡ rows_after
          (get_open_incident_by_unit unit m')
          result.next_workflow.open_incident_id
          m.incident_views
  pub stations :
      StationsAfter
        (str_eq result.next_workflow.current_station_id "")
        (linked result.next_workflow h.incident_id)
        m
        m'

abbrev Beside : Memory → Memory → Type 0
Beside m m' = SameIncidents m m' × SameRows m m'

appended-Beside : (ds : List WorkflowDecision) (m : Memory) → Beside m (append_decisions ds m)
unfolding append_decisions append_decision
appended-Beside [] m = ((refl, refl), (refl, refl))
appended-Beside (d ∷ ds) m = appended-Beside ds (append_decision d m)

cancelled-Beside : (keys : List String) (m : Memory) → Beside m (cancel_all keys m)
unfolding cancel_all cancel
cancelled-Beside [] m = ((refl, refl), (refl, refl))
cancelled-Beside (key ∷ keys) m = cancelled-Beside keys (cancel key m)

scheduled-Beside :
    (wf : UnitWorkflow) (reqs : List TimerRequest) (m : Memory) → Beside m (schedule_all wf reqs m)
unfolding schedule_all schedule
scheduled-Beside wf [] m = ((refl, refl), (refl, refl))
scheduled-Beside wf (req ∷ reqs) m = scheduled-Beside wf reqs _

Beside-trans : (a b c : Memory) → Beside a b → Beside b c → Beside a c
Beside-trans a b c (p, q) (r, s) = ((r.0 ∙ p.0, r.1 ∙ p.1), (s.0 ∙ q.0, s.1 ∙ q.1))

module _ (clock : ℕ → Time) (wf : UnitWorkflow) (action : IncidentAction) where
  SameIncidents-Acted :
      (ty : IncidentActionType) (old : Option Incident) (m0 m m' m1 : Memory)
      → SameIncidents m0 m
      → SameIncidents m' m1
      → Acted clock wf action ty old m m'
      → Acted clock wf action ty old m0 m1
  SameIncidents-Acted unset old m0 m m' m1 (p, q) (r, s) (a, b) = (r ∙ a ∙ p, s ∙ b ∙ q)
  SameIncidents-Acted none_action old m0 m m' m1 (p, q) (r, s) (a, b) = (r ∙ a ∙ p, s ∙ b ∙ q)
  SameIncidents-Acted upsert old m0 m m' m1 (p, q) (r, s) (i, from, shows, a, b) =
      (i, from, shows, r ∙ a ∙ ap (insert i.id i) p, s ∙ b ∙ ap (insert i.unit_id i.id) q)
  SameIncidents-Acted close none m0 m m' m1 (p, q) (r, s) (a, b) = (r ∙ a ∙ p, s ∙ b ∙ q)
  SameIncidents-Acted close (some old) m0 m m' m1 (p, q) (r, s) (t, a, b) =
      (t, r ∙ a ∙ ap (insert old.id _) p, s ∙ b ∙ ap (erase old.unit_id) q)

relinked :
    (incident : Option Incident) (named : String) (rows : Dict IncidentDashboardItem)
    → rows_after incident (id_of incident) (unlinked incident named rows)
      ≡ rows_after incident named rows
relinked none named rows = refl
relinked (some i) named rows = refl

module _ (clock : ℕ → Time) (result : TransitionResult) where
  -- what `save` does
  abbrev Saved : UnitWorkflow → Memory → Memory → HandleResult → Type 0
  Saved wf m m' h =
      (h.incident_id ≡ wf.open_incident_id)
      × SameIncidents m m'
      × (m'.incident_views
          ≡ rows_after (get_open_incident_by_unit wf.unit_id m) wf.open_incident_id
              m.incident_views)
      × StationsAfter (str_eq wf.current_station_id "") wf m m'

  save-Saved :
      (wf : UnitWorkflow) (w : World)
      → Ends (λ h w'. Saved wf w.memory w'.memory h) (save clock result wf w)
  unfolding save put_workflow get_open_incident_by_unit
  save-Saved wf w =
      let stored : World = record w { memory = put_workflow wf w.memory } in
      let answer : HandleResult = record {
        accepted = true;
        workflow_state = state_text wf.state;
        decision_ids = map (λ d. d.id) result.decisions;
        incident_id = wf.open_incident_id;
      } in
      bind-Ends {A = Unit {0}} {B = HandleResult} _ (λ h w'. Saved wf w.memory w'.memory h)
        (λ _. pure answer) (rebuild_projections clock wf stored)
        (λ u w' (same, rows, row). (
          refl,
          same,
          rows,
          since (str_eq wf.current_station_id "") wf (put_workflow wf w.memory) w.memory w'.memory
              refl row,
        ))
        (rebuild-Mirrored clock wf stored)

  -- the parts of a commit, put together
  Saved-IsMirrored :
      (unit : String) (m m3 m4 m5 m7 : Memory) (h : HandleResult)
      → result.next_workflow.unit_id ≡ unit
      → Beside m m3
      → Acted clock result.next_workflow result.incident_action result.incident_action.type
          (get_open_incident_by_unit result.next_workflow.unit_id m3)
          m3
          m4
      → SameRows m3 m4
      → SameIncidents m4 m5
      → (m5.incident_views
          ≡ unlinked
              (get_open_incident_by_unit unit m4)
              result.next_workflow.open_incident_id
              m4.incident_views)
      → (m5.station_views ≡ m4.station_views)
      → Saved (linked result.next_workflow (id_of (get_open_incident_by_unit unit m4))) m5 m7 h
      → IsMirrored clock unit result m m7 h
  Saved-IsMirrored unit m m3 m4 m5 m7 h own (same3, rows3) acted rows4 same5 rows5 stations5
        (named, same7, rows7, stations7) =
      let next = result.next_workflow in
      let incident = get_open_incident_by_unit unit m4 in
      let same47 : SameIncidents m4 m7 = (same7.0 ∙ same5.0, same7.1 ∙ same5.1) in
      let before : get_open_incident_by_unit next.unit_id m3 ≡ get_open_incident_by_unit unit m =
        open_eq next.unit_id m m3 same3.1 same3.0 ∙ ap (λ u. get_open_incident_by_unit u m) own in
      let read5 : get_open_incident_by_unit next.unit_id m5 ≡ incident =
        open_eq next.unit_id m4 m5 same5.1 same5.0 ∙ ap (λ u. get_open_incident_by_unit u m4) own in
      record {
        acted =
            subst
              (λ old. Acted clock next result.incident_action result.incident_action.type old m m7)
              before
              (SameIncidents-Acted clock next result.incident_action result.incident_action.type _ m
                m3 m4 m7 same3 same47 acted);
        rows =
            rows7
            ∙ ap (λ i. rows_after i (id_of incident) m5.incident_views) read5
            ∙ ap (rows_after incident (id_of incident)) rows5
            ∙ relinked incident next.open_incident_id m4.incident_views
            ∙ ap (rows_after incident next.open_incident_id) (rows4.0 ∙ rows3.0)
            ∙ ap (λ i. rows_after i next.open_incident_id m.incident_views)
                (sym (open_eq unit m4 m7 same47.1 same47.0));
        stations =
            subst (λ id. StationsAfter (str_eq next.current_station_id "") (linked next id) m m7)
              (sym named)
              (since (str_eq next.current_station_id "") (linked next (id_of incident)) m5 m m7
                (stations5 ∙ rows4.1 ∙ rows3.1) stations7);
      }

  module _ (unit : String) (own : result.next_workflow.unit_id ≡ unit) where
    -- what linking the incident does
    abbrev IsLinked : Memory → UnitWorkflow → Memory → Type 0
    IsLinked m wf' m' =
        (wf' ≡ linked result.next_workflow (id_of (get_open_incident_by_unit unit m)))
        × SameIncidents m m'
        × (m'.incident_views
            ≡ unlinked (get_open_incident_by_unit unit m) result.next_workflow.open_incident_id
                m.incident_views)
        × (m'.station_views ≡ m.station_views)

    -- what `link_and_save` does
    abbrev Stored : Memory → HandleResult → Memory → Type 0
    Stored m0 h m' =
        (m : Memory) × SameIncidents m0 m
        × (m.incident_views
            ≡ unlinked (get_open_incident_by_unit unit m0) result.next_workflow.open_incident_id
                m0.incident_views)
        × (m.station_views ≡ m0.station_views)
        × Saved (linked result.next_workflow (id_of (get_open_incident_by_unit unit m0))) m m' h

    saved-Stored :
        (w w' : World) (wf' : UnitWorkflow)
        → IsLinked w.memory wf' w'.memory
        → Ends (λ h w''. Stored w.memory h w''.memory) (save clock result wf' w')
    saved-Stored w w' wf' (e, same, rows, stations) =
        Ends-map (λ h w''. Saved wf' w'.memory w''.memory h) (λ h w''. Stored w.memory h w''.memory)
          (save clock result wf' w')
          (λ h w'' saved. (
            w'.memory,
            same,
            rows,
            stations,
            subst (λ wf. Saved wf w'.memory w''.memory h) e saved,
          ))
          (save-Saved wf' w')

    link_and_save-Saved :
        (w : World) → Ends (λ h w'. Stored w.memory h w'.memory) (link_and_save clock unit result w)
    unfolding link_and_save
    link_and_save-Saved w =
        let incident = get_open_incident_by_unit unit w.memory in
        bind-Ends (λ wf' w'. IsLinked w.memory wf' w'.memory)
          (λ h w''. Stored w.memory h w''.memory) (save clock result) _
          (λ wf' w' h. saved-Stored w w' wf' h)
          (link-Mirrored clock result.next_workflow incident w)

    pub commit_transition-IsMirrored :
        (w : World)
        → Ends
            (λ h w'. IsMirrored clock unit result w.memory w'.memory h)
            (commit_transition clock unit result w)
    unfolding commit_transition
    commit_transition-IsMirrored w =
        let m1 = append_decisions result.decisions w.memory in
        let m2 = cancel_all result.timers_to_cancel m1 in
        let m3 = schedule_all result.next_workflow result.timers_to_start m2 in
        let beside = Beside-trans w.memory m1 m3 (appended-Beside result.decisions w.memory) (
          Beside-trans m1 m2 m3 (cancelled-Beside result.timers_to_cancel m1)
            (scheduled-Beside result.next_workflow result.timers_to_start m2)) in
        bind-Ends {A = Unit {0}} {B = HandleResult} _
          (λ h w'. IsMirrored clock unit result w.memory w'.memory h)
          (λ _. link_and_save clock unit result)
          (act_on_incident clock result.next_workflow result.incident_action
            (record w { memory = m3 }))
          (λ _ w4 (acted, rows4).
            Ends-map _ _ (link_and_save clock unit result w4)
              (λ h w7 (m5, same5, rows5, stations5, saved).
                Saved-IsMirrored unit w.memory m3 w4.memory m5 w7.memory h own beside acted rows4
                  same5 rows5 stations5 saved)
              (link_and_save-Saved w4))
          (act_on_incident-Acted clock result.next_workflow result.incident_action
            result.incident_action.type (record w { memory = m3 }) refl)
