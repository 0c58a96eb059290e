-- ===== src/App/Effects.antt =====
-- What the steps of `commitTransition` in internal/app/app.go leave alone and what they write.
use forge_mini.Base.{
  ◌∙◌, ℕ, String, ◌≡◌, true, Option, none, some, map, arith, str_eq, Bool-cases, inl, inr,
}
use forge_mini.Base.Dict.{insert}
use forge_mini.Base.Errors.{Result, ok, err}
use forge_mini.Base.Machine.{Time}
use forge_mini.Incidents.{Incident}
use forge_mini.Workflow.State.{UnitWorkflow, state_text}
use forge_mini.Workflow.Decisions.{HandleResult, IncidentAction, TransitionResult}
use forge_mini.Store.{
  Memory, list_decisions_by_workflow, get_open_incident_by_unit, put_incident, put_unit_status,
  put_incident_view, delete_incident_view, put_station_health,
}
use forge_mini.App.Monad.{World, Action, ◌>>=◌}
use forge_mini.App.Commit.{
  append_decisions, cancel_all, schedule_all, unit_view, refresh_incident_view, record_station,
  rebuild_projections, open_or_new, upsert_incident, close_incident, apply_incident_action,
  act_on_incident, link_incident,
}

-- a method that returns no error, and what holds of its value and the world after it
abbrev pub Ends {ℓ} : {A : Type ℓ} → (A → World → Type 0) → Result A × World → Type 0
Ends P (ok a, w) = P a w
Ends P (err e, w) = ⊥

pub Ends-map {ℓ} :
    {A : Type ℓ} (P Q : A → World → Type 0) (r : Result A × World)
    → ((a : A) (w : World) → P a w → Q a w)
    → Ends P r
    → Ends Q r
Ends-map P Q (ok a, w) f h = f a w h
Ends-map P Q (err e, w) f h = h

-- a first action and then a second
pub bind-Ends {ℓ κ} :
    {A : Type ℓ} {B : Type κ} (P : A → World → Type 0) (Q : B → World → Type 0) (f : A → Action B)
    (r : Result A × World)
    → ((a : A) (w' : World) → P a w' → Ends Q (f a w'))
    → Ends P r
    → Ends Q (((λ w. r) >>= f) r.1)
bind-Ends P Q f (ok a, w') k h = k a w' h
bind-Ends P Q f (err e, w') k h = absurd h

-- The parts of the store that the incidents and the dashboards do not touch.
pub record SameCore (m m' : Memory) : Type 0 where
  pub signals_by_id : m'.signals_by_id ≡ m.signals_by_id
  pub signals_by_unit : m'.signals_by_unit ≡ m.signals_by_unit
  pub decisions : m'.decisions_by_workflow ≡ m.decisions_by_workflow
  pub workflows : m'.workflows_by_unit ≡ m.workflows_by_unit
  pub unit_views : m'.unit_views ≡ m.unit_views
  pub timers : m'.timers_by_key ≡ m.timers_by_key

-- the identifier of an incident, `""` where there is none
abbrev pub id_of : Option Incident → String
id_of none = ""
id_of (some incident) = incident.id

-- The same, and the incidents too: only rows of the dashboards differ.
pub record SameAll (m m' : Memory) : Type 0 where
  pub core : SameCore m m'
  pub incidents : m'.incidents_by_id ≡ m.incidents_by_id
  pub open_incidents : m'.open_incident_by_unit ≡ m.open_incident_by_unit

SameAll-refl : (m : Memory) → SameAll m m
SameAll-refl m = ground arith

-- The store with the dashboards rebuilt for a snapshot.
pub record Rebuilt (wf : UnitWorkflow) (m m' : Memory) : Type 0 where
  pub signals_by_id : m'.signals_by_id ≡ m.signals_by_id
  pub signals_by_unit : m'.signals_by_unit ≡ m.signals_by_unit
  pub decisions : m'.decisions_by_workflow ≡ m.decisions_by_workflow
  pub workflows : m'.workflows_by_unit ≡ m.workflows_by_unit
  pub timers : m'.timers_by_key ≡ m.timers_by_key
  pub incidents : m'.incidents_by_id ≡ m.incidents_by_id
  pub open_incidents : m'.open_incident_by_unit ≡ m.open_incident_by_unit
  pub viewed :
      m'.unit_views
      ≡ insert wf.unit_id (unit_view wf (list_decisions_by_workflow wf.workflow_id m)) m.unit_views

module _ (clock : ℕ → Time) where
  pub act_on_incident-Ends :
      (wf : UnitWorkflow) (action : IncidentAction) (w : World)
      → Ends (λ _ w'. SameCore w.memory w'.memory) (act_on_incident clock wf action w)
  unfolding act_on_incident apply_incident_action upsert_incident close_incident open_or_new
      put_incident
  act_on_incident-Ends wf action w = ground arith

  pub link_incident-Ends :
      (wf : UnitWorkflow) (incident : Option Incident) (w : World)
      → Ends
          (λ wf' w'.
            (wf' ≡ record wf { open_incident_id = id_of incident }) × SameAll w.memory w'.memory)
          (link_incident clock wf incident w)
  unfolding link_incident delete_incident_view
  link_incident-Ends wf incident w = ground arith

  record_station-Ends :
      (wf : UnitWorkflow) (w : World)
      → Ends (λ _ w'. SameAll w.memory w'.memory) (record_station clock wf w)
  unfolding record_station put_station_health
  record_station-Ends wf w = elim (Bool-cases (str_eq wf.current_station_id "")) [
    | inl e ↦ rw e (SameAll-refl w.memory)
    | inr e ↦ rw e (ground arith)
  ]

  refresh_incident_view-SameAll :
      (wf : UnitWorkflow) (m : Memory) → SameAll m (refresh_incident_view wf m)
  unfolding refresh_incident_view put_incident_view delete_incident_view
  refresh_incident_view-SameAll wf m = ground arith

  pub rebuild_projections-Ends :
      (wf : UnitWorkflow) (w : World)
      → Ends (λ _ w'. Rebuilt wf w.memory w'.memory) (rebuild_projections clock wf w)
  unfolding rebuild_projections put_unit_status unit_view
  rebuild_projections-Ends wf w =
      let view = unit_view wf (list_decisions_by_workflow wf.workflow_id w.memory) in
      let m = put_unit_status view w.memory in
      let m' = refresh_incident_view wf m in
      let w' = record w { memory = m' } in
      let q = refresh_incident_view-SameAll wf m in
      Ends-map _ _ (record_station clock wf w')
        (λ a w'' e. record {
          signals_by_id = e.core.signals_by_id ∙ q.core.signals_by_id;
          signals_by_unit = e.core.signals_by_unit ∙ q.core.signals_by_unit;
          decisions = e.core.decisions ∙ q.core.decisions;
          workflows = e.core.workflows ∙ q.core.workflows;
          timers = e.core.timers ∙ q.core.timers;
          incidents = e.incidents ∙ q.incidents;
          open_incidents = e.open_incidents ∙ q.open_incidents;
          viewed = e.core.unit_views ∙ q.core.unit_views;
        })
        (record_station-Ends wf w')

-- what the committed snapshot is: that of the engine, with the open incident linked
abbrev pub linked : UnitWorkflow → String → UnitWorkflow
linked wf incident = record wf { open_incident_id = incident }

-- What `commitTransition` answers and writes.
pub record IsCommitted (unit : String) (result : TransitionResult) (m m' : Memory)
    (h : HandleResult) : Type 0 where
  pub accepted : h.accepted ≡ true
  pub shown : h.workflow_state ≡ state_text result.next_workflow.state
  pub listed : h.decision_ids ≡ map (λ d. d.id) result.decisions
  pub signals_by_id : m'.signals_by_id ≡ m.signals_by_id
  pub signals_by_unit : m'.signals_by_unit ≡ m.signals_by_unit
  pub decided :
      m'.decisions_by_workflow ≡ (append_decisions result.decisions m).decisions_by_workflow
  pub incident : h.incident_id ≡ id_of (get_open_incident_by_unit unit m')
  pub stored :
      m'.workflows_by_unit
      ≡ insert result.next_workflow.unit_id
          (linked result.next_workflow h.incident_id)
          m.workflows_by_unit
  pub viewed :
      m'.unit_views
      ≡ insert result.next_workflow.unit_id
          (unit_view
            (linked result.next_workflow h.incident_id)
            (list_decisions_by_workflow result.next_workflow.workflow_id m'))
          m.unit_views
  pub scheduled :
      m'.timers_by_key
      ≡ (schedule_all result.next_workflow result.timers_to_start
          (cancel_all result.timers_to_cancel (append_decisions result.decisions m))).timers_by_key
