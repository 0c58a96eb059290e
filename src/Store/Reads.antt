-- ===== src/Store/Reads.antt =====
-- What the methods of internal/store/memory.go read after a write.
use forge_mini.Base.{
  String, false, Option, none, some, arith, str_eq, eq_iff, eq_refl, if◌then◌else◌, ◌≡◌, refl, ◌⊎◌,
  inl, inr, Option-cases, Bool-cases,
}
use forge_mini.Base.Dict.{Dict, lookup, insert, lookup-insert, lookup-erase}
use forge_mini.Base.Errors.{not_found, ok, err}
use forge_mini.Incidents.{Incident, is_resolved}
use forge_mini.Workflow.State.{UnitWorkflow}
use forge_mini.Store.{
  Memory, found, get_workflow, incident_or_zero, get_open_incident_by_unit, put_incident,
}

-- The only error of `GetWorkflow` is that of a missing unit.
pub get_workflow-cases :
    (unit : String) (m : Memory)
    → ((wf : UnitWorkflow) × (get_workflow unit m ≡ ok wf)) ⊎ (get_workflow unit m ≡ err not_found)
unfolding get_workflow found
get_workflow-cases unit m = elim (Option-cases (lookup unit m.workflows_by_unit)) [
  | inl e ↦ inr (rw e refl)
  | inr (wf, e) ↦ inl (wf, rw e refl)
]

-- What is read once a snapshot was written.
pub get_workflow-insert :
    (unit key : String) (wf : UnitWorkflow) (m m' : Memory)
    → m'.workflows_by_unit ≡ insert key wf m.workflows_by_unit
    → get_workflow unit m' ≡ (if str_eq key unit then ok wf else get_workflow unit m)
unfolding get_workflow found
get_workflow-insert unit key wf m m' e = elim (Bool-cases (str_eq key unit)) [
  | inl q ↦ rw (e, lookup-insert, q) refl
  | inr q ↦ rw (e, lookup-insert, q) refl
]

-- the incident that reads as open for a unit once `incident` was written
abbrev pub open_after : Incident → String → Memory → Option Incident
open_after incident unit m =
    if str_eq incident.unit_id unit
    then (if is_resolved incident.status then none else some incident)
    else get_open_incident_by_unit unit m

unfoldable pub read_open : Option String → Dict Incident → Option Incident
unfolding lookup incident_or_zero
read_open none incidents = none
read_open (some id) incidents = some (incident_or_zero (lookup id incidents))

pub get_open-read_open :
    (unit : String) (m : Memory)
    → get_open_incident_by_unit unit m
      ≡ read_open (lookup unit m.open_incident_by_unit) m.incidents_by_id
unfolding get_open_incident_by_unit read_open
get_open-read_open unit m = elim (Option-cases (lookup unit m.open_incident_by_unit)) [
  | inl e ↦ rw (e, get_open_incident_by_unit) refl
  | inr (id, e) ↦ rw (e, get_open_incident_by_unit) refl
]

-- the incident of another unit reads as it did
read_other :
    (incident : Incident) (incidents : Dict Incident) (o : Option String)
    → ((id : String) → o ≡ some id → str_eq incident.id id ≡ false)
    → read_open o (insert incident.id incident incidents) ≡ read_open o incidents
unfolding read_open
read_other incident incidents none h = refl
read_other incident incidents (some id) h =
    rw (lookup-insert incident.id id incident incidents, h id refl) refl

read_own :
    (incident : Incident) (incidents : Dict Incident)
    → read_open (some incident.id) (insert incident.id incident incidents) ≡ some incident
unfolding read_open incident_or_zero
read_own incident incidents =
    rw (lookup-insert incident.id incident.id incident incidents, eq_refl incident.id) refl

-- After `PutIncident`, `GetOpenIncidentByUnit` gives for the incident's unit the incident, or nil where
-- it is resolved, and for every other unit what it gave before, where no other unit has the
-- identifier of the incident as that of its open incident.
pub get_open-put_incident :
    (incident : Incident) (unit : String) (m : Memory)
    → ((other : String)
        → lookup other m.open_incident_by_unit ≡ some incident.id
        → other ≡ incident.unit_id)
    → get_open_incident_by_unit unit (put_incident incident m) ≡ open_after incident unit m
unfolding put_incident read_open
get_open-put_incident incident unit m own =
    let keep = λ (ne : str_eq incident.unit_id unit ≡ false).
      read_other incident m.incidents_by_id (lookup unit m.open_incident_by_unit)
        (λ id e. ground (arith, eq_iff incident.id id, eq_iff incident.unit_id unit, own unit)) in
    rw (get_open-read_open unit (put_incident incident m), get_open-read_open unit m, put_incident)
      (elim (Bool-cases (is_resolved incident.status)) [
        | inl r ↦ elim (Bool-cases (str_eq incident.unit_id unit)) [
          | inl q ↦ rw (r, q, lookup-erase, q) refl
          | inr q ↦ rw (r, q, lookup-erase, q) (keep q)
        ]
        | inr r ↦ elim (Bool-cases (str_eq incident.unit_id unit)) [
          | inl q ↦ rw (r, q, lookup-insert, q) (read_own incident m.incidents_by_id)
          | inr q ↦ rw (r, q, lookup-insert, q) (keep q)
        ]
      ])
