-- ===== src/App/Mirror/Steps.antt =====
-- The steps of `commitTransition` of internal/app/app.go, for the incidents and the rows of incidents and
-- stations.
use forge_mini.Base.{
  ℕ, String, ◌≡◌, refl, ◌∙◌, ap, Bool, true, false, Option, none, some, Bool-cases, Option-cases,
  inl, inr, str_eq, if◌then◌else◌, arith,
}
use forge_mini.Base.Dict.{Dict, insert, erase}
use forge_mini.Base.Machine.{Time}
use forge_mini.Projections.{IncidentDashboardItem}
use forge_mini.Incidents.{Incident, is_resolved}
use forge_mini.Workflow.State.{State, UnitWorkflow, on_hold, attempt_at}
use forge_mini.Workflow.Decisions.{
  IncidentAction, IncidentActionType, unset, none_action, upsert, close,
}
use forge_mini.Store.{
  Memory, get_open_incident_by_unit, put_incident, put_unit_status, put_incident_view,
  delete_incident_view, put_station_health, list_decisions_by_workflow,
}
use forge_mini.App.Monad.{World}
use forge_mini.App.Commit.{
  act_on_incident, apply_incident_action, upsert_incident, close_incident, open_or_new, unit_view,
  incident_view, station_view, station_status, bool_to_int, refresh_incident_view, record_station,
  rebuild_projections, link_incident,
}
use forge_mini.App.Effects.{Ends, Ends-map, id_of, linked}
use forge_mini.App.Incidents.{incident_id}
use forge_mini.App.Mirror.{SameIncidents, Acted, rows_after, blocked, station_row, StationsAfter}

abbrev pub SameRows : Memory → Memory → Type 0
SameRows m m' = (m'.incident_views ≡ m.incident_views) × (m'.station_views ≡ m.station_views)

module _ (clock : ℕ → Time) where
  upsert-Acted :
      (wf : UnitWorkflow) (action : IncidentAction) (old : Option Incident) (w : World)
      → Ends
          (λ u w'.
            Acted clock wf action upsert old w.memory w'.memory × SameRows w.memory w'.memory)
          (upsert_incident clock wf action old w)
  unfolding upsert_incident open_or_new put_incident is_resolved incident_id
  upsert-Acted wf action none w = (
    (_, (w.ticks, refl, refl, refl, refl, refl), (refl, refl, refl, refl, refl, refl), refl, refl),
    (refl, refl),
  )
  upsert-Acted wf action (some old) w = (
    (_, (refl, refl, refl, refl, refl), (refl, refl, refl, refl, refl, refl), refl, refl),
    (refl, refl),
  )

  close-Acted :
      (wf : UnitWorkflow) (action : IncidentAction) (old : Option Incident) (w : World)
      → Ends
          (λ u w'. Acted clock wf action close old w.memory w'.memory × SameRows w.memory w'.memory)
          (close_incident clock old w)
  unfolding close_incident put_incident is_resolved
  close-Acted wf action none w = ((refl, refl), (refl, refl))
  close-Acted wf action (some old) w = ((_, refl, refl), (refl, refl))

  pub act_on_incident-Acted :
      (wf : UnitWorkflow) (action : IncidentAction) (ty : IncidentActionType) (w : World)
      → action.type ≡ ty
      → Ends
          (λ u w'.
            Acted clock wf action ty
              (get_open_incident_by_unit wf.unit_id w.memory)
              w.memory
              w'.memory
            × SameRows w.memory w'.memory)
          (act_on_incident clock wf action w)
  unfolding act_on_incident apply_incident_action
  act_on_incident-Acted wf action unset w e =
      rw (act_on_incident, e, apply_incident_action, e) ((refl, refl), (refl, refl))
  act_on_incident-Acted wf action none_action w e =
      rw (act_on_incident, e) ((refl, refl), (refl, refl))
  act_on_incident-Acted wf action upsert w e =
      rw (act_on_incident, e, apply_incident_action, e)
        (upsert-Acted wf action (get_open_incident_by_unit wf.unit_id w.memory) w)
  act_on_incident-Acted wf action close w e =
      rw (act_on_incident, e, apply_incident_action, e)
        (close-Acted wf action (get_open_incident_by_unit wf.unit_id w.memory) w)

refresh-rows :
    (wf : UnitWorkflow) (m : Memory)
    → (refresh_incident_view wf m).incident_views
      ≡ rows_after (get_open_incident_by_unit wf.unit_id m) wf.open_incident_id m.incident_views
unfolding refresh_incident_view put_incident_view delete_incident_view incident_view
refresh-rows wf m = elim (Option-cases (get_open_incident_by_unit wf.unit_id m)) [
  | inl e ↦ rw (e, refresh_incident_view) (ground arith)
  | inr (i, e) ↦ rw (e, refresh_incident_view) refl
]

refresh-Same :
    (wf : UnitWorkflow) (m : Memory)
    → SameIncidents m (refresh_incident_view wf m)
      × ((refresh_incident_view wf m).station_views ≡ m.station_views)
unfolding refresh_incident_view put_incident_view delete_incident_view
refresh-Same wf m = ground arith

status-blocked :
    (wf : UnitWorkflow) (st : State)
    → wf.state ≡ st
    → str_eq wf.current_station_id "" ≡ false
    → station_status wf ≡ blocked st
unfolding station_status
status-blocked wf on_hold e ne = rw (station_status, e) refl
status-blocked wf st e ne = rw (station_status, e, ne) refl

station_view-station_row :
    (wf : UnitWorkflow) (seen : Time)
    → str_eq wf.current_station_id "" ≡ false
    → station_view wf seen ≡ station_row wf seen
unfolding station_view attempt_at bool_to_int
station_view-station_row wf seen ne =
    let status = status-blocked wf wf.state refl ne in
    elim (Bool-cases (str_eq wf.open_incident_id "")) [
      | inl q ↦ rw (station_view, status, q, bool_to_int) refl
      | inr q ↦ rw (station_view, status, q, bool_to_int) refl
    ]

-- what the linking takes away
abbrev pub unlinked :
    Option Incident → String → Dict IncidentDashboardItem → Dict IncidentDashboardItem
unlinked (some i) named rows = rows
unlinked none named rows = if str_eq named "" then rows else erase named rows

pub since :
    (away : Bool) (wf : UnitWorkflow) (m m0 m' : Memory)
    → m.station_views ≡ m0.station_views
    → StationsAfter away wf m m'
    → StationsAfter away wf m0 m'
since true wf m m0 m' e h = h ∙ e
since false wf m m0 m' e (seen, h) =
    (seen, h ∙ ap (insert wf.current_station_id (station_row wf seen)) e)

module _ (clock : ℕ → Time) where
  station-StationsAfter :
      (wf : UnitWorkflow) (w : World)
      → Ends
          (λ u w'.
            SameIncidents w.memory w'.memory
            × (w'.memory.incident_views ≡ w.memory.incident_views)
            × StationsAfter (str_eq wf.current_station_id "") wf w.memory w'.memory)
          (record_station clock wf w)
  unfolding record_station put_station_health station_view
  station-StationsAfter wf w = elim (Bool-cases (str_eq wf.current_station_id "")) [
    | inl e ↦ rw (record_station, e) ((refl, refl), refl, refl)
    | inr e ↦
        rw (record_station, e)
          (
            (refl, refl),
            refl,
            (
              clock w.ticks,
              ap (λ row. insert wf.current_station_id row w.memory.station_views)
                  (station_view-station_row wf (clock w.ticks) e),
            ),
          )
  ]

  pub rebuild-Mirrored :
      (wf : UnitWorkflow) (w : World)
      → Ends
          (λ u w'.
            SameIncidents w.memory w'.memory
            × (w'.memory.incident_views
                ≡ rows_after
                    (get_open_incident_by_unit wf.unit_id w.memory)
                    wf.open_incident_id
                    w.memory.incident_views)
            × StationsAfter (str_eq wf.current_station_id "") wf w.memory w'.memory)
          (rebuild_projections clock wf w)
  unfolding rebuild_projections put_unit_status get_open_incident_by_unit
  rebuild-Mirrored wf w =
      let view = unit_view wf (list_decisions_by_workflow wf.workflow_id w.memory) in
      let m = put_unit_status view w.memory in
      let (same, stations) = refresh-Same wf m in
      Ends-map _ _ (record_station clock wf (record w { memory = refresh_incident_view wf m }))
        (λ u w' (kept, rows, row). (
          (kept.0 ∙ same.0, kept.1 ∙ same.1),
          rows ∙ refresh-rows wf m,
          since (str_eq wf.current_station_id "") wf (refresh_incident_view wf m) w.memory w'.memory
              stations row,
        ))
        (station-StationsAfter wf (record w { memory = refresh_incident_view wf m }))

  pub link-Mirrored :
      (wf : UnitWorkflow) (incident : Option Incident) (w : World)
      → Ends
          (λ wf' w'.
            (wf' ≡ linked wf (id_of incident))
            × SameIncidents w.memory w'.memory
            × (w'.memory.incident_views
                ≡ unlinked incident wf.open_incident_id w.memory.incident_views)
            × (w'.memory.station_views ≡ w.memory.station_views))
          (link_incident clock wf incident w)
  unfolding link_incident delete_incident_view
  link-Mirrored wf none w = elim (Bool-cases (str_eq wf.open_incident_id "")) [
    | inl e ↦ rw (link_incident, e) (refl, (refl, refl), refl, refl)
    | inr e ↦ rw (link_incident, e) (refl, (refl, refl), refl, refl)
  ]
  link-Mirrored wf (some incident) w = (refl, (refl, refl), refl, refl)
