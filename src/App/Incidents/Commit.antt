-- ===== src/App/Incidents/Commit.antt =====
-- `commitTransition` of internal/app/app.go keeps the open incidents in order.
use mathlib.Core.Path.{subst}
use forge_mini.Base.{
  ℕ, suc, ◌<◌, ◌≤◌, String, ◌≡◌, refl, ap, sym, ◌∙◌, false, Option, none, some, str_eq, arith,
}
use forge_mini.Base.Preserves.{Preserves}
use forge_mini.Base.Machine.{Time}
use forge_mini.Incidents.{Incident}
use forge_mini.Workflow.State.{UnitWorkflow}
use forge_mini.Workflow.Decisions.{
  IncidentAction, IncidentActionType, unset, none_action, upsert, close,
}
use forge_mini.Store.{Memory, put_incident, get_open_incident_by_unit}
use forge_mini.Store.Reads.{get_open-put_incident}
use forge_mini.App.Monad.{World, modify, now}
use forge_mini.App.Commit.{
  open_or_new, upsert_incident, close_incident, apply_incident_action, act_on_incident,
}
use forge_mini.App.Committed.{open_eq}
use forge_mini.App.Incidents.{
  Distinct, AllOpen, IsAlone, NamedBy, incident_id, put-AllOpen, existing-IsAlone, fresh-IsAlone,
  get-IsOpen, the_same, same_AllOpen, later_AllOpen,
}

-- Up to the reading `N` of the clock: the open incidents are in order, and something holds of that of
-- `other`, where it is not `unit`.
module _ (clock : ℕ → Time) (N : ℕ) (distinct : Distinct clock N) (unit other : String)
    (Q : Option Incident → Type 0) where
  abbrev pub Held : ℕ → Memory → Type 0
  Held n m = AllOpen clock n m × (str_eq unit other ≡ false → Q (get_open_incident_by_unit other m))

  abbrev pub Holds : World → Type 0
  Holds w = w.ticks ≤ N → Held w.ticks w.memory

  put-Held :
      (incident : Incident) (m : Memory) (n k : ℕ)
      → n ≤ k
      → IsAlone incident m
      → NamedBy clock k incident.id
      → incident.unit_id ≡ unit
      → Held n m
      → Held k (put_incident incident m)
  put-Held incident m n k le alone named own (all, same) = (
    put-AllOpen clock incident m n k le all alone named,
    λ ne.
        subst Q (sym (get_open-put_incident incident other m alone ∙ rw (own, ne) refl)) (same ne),
  )

  later : (n k : ℕ) (m : Memory) → n ≤ k → Held n m → Held k m
  later n k m le (all, same) = (later_AllOpen clock n k m le all, same)

  -- an incident that the unit has, with other contents
  renewed_Held :
      (wf : UnitWorkflow) (existing incident : Incident) (w : World) (k : ℕ)
      → wf.unit_id ≡ unit
      → get_open_incident_by_unit wf.unit_id w.memory ≡ some existing
      → incident.id ≡ existing.id
      → incident.unit_id ≡ existing.unit_id
      → w.ticks ≤ k
      → Held w.ticks w.memory
      → Held k (put_incident incident w.memory)
  renewed_Held wf existing incident w k own read id_same unit_same le (all, same) =
      let (opened, named, stored) =
        get-IsOpen clock wf.unit_id w.memory w.ticks existing all read in
      let (i, below, name) = named in
      let theirs = opened.own in
      put-Held incident w.memory w.ticks k le
        (λ u at.
          existing-IsAlone clock wf.unit_id w.memory w.ticks existing all opened stored u
            (at ∙ ap some id_same)
          ∙ sym unit_same)
        (i, omega (arith, below, le), id_same ∙ name)
        (unit_same
          ∙ ap (λ x. x.unit_id) (the_same existing opened.incident (sym stored ∙ opened.stored))
          ∙ theirs
          ∙ own)
        (all, same)

  -- an incident that is new
  new_Held :
      (incident : Incident) (w : World) (k : ℕ)
      → incident.id ≡ incident_id (clock w.ticks)
      → incident.unit_id ≡ unit
      → w.ticks < k
      → k ≤ N
      → Held w.ticks w.memory
      → Held k (put_incident incident w.memory)
  new_Held incident w k made own le small kept =
      put-Held incident w.memory w.ticks k (omega (arith, le))
        (fresh-IsAlone clock w.memory w.ticks N incident distinct (omega (arith, le, small)) kept.0
          made)
        (w.ticks, le, made) own kept

  upsert-Holds :
      (wf : UnitWorkflow) (action : IncidentAction) (existing : Option Incident) (w : World)
      → wf.unit_id ≡ unit
      → get_open_incident_by_unit wf.unit_id w.memory ≡ existing
      → Holds w
      → Holds (upsert_incident clock wf action existing w).1
  unfolding upsert_incident open_or_new incident_id
  upsert-Holds wf action none w own read h small =
      new_Held _ w _ refl own (omega arith) small (h (omega (arith, small)))
  upsert-Holds wf action (some e) w own read h small =
      renewed_Held wf e _ w _ own read refl refl (omega arith) (h (omega (arith, small)))

  close-Holds :
      (wf : UnitWorkflow) (existing : Option Incident) (w : World)
      → wf.unit_id ≡ unit
      → get_open_incident_by_unit wf.unit_id w.memory ≡ existing
      → Holds w
      → Holds (close_incident clock existing w).1
  unfolding close_incident
  close-Holds wf none w own read h = h
  close-Holds wf (some e) w own read h =
      λ small. renewed_Held wf e _ w _ own read refl refl (omega arith) (h (omega (arith, small)))

  -- what does not touch the incidents
  same_Held :
      (n : ℕ) (m m' : Memory)
      → m'.incidents_by_id ≡ m.incidents_by_id
      → m'.open_incident_by_unit ≡ m.open_incident_by_unit
      → Held n m
      → Held n m'
  same_Held n m m' incidents opens (all, same) = (
    same_AllOpen clock n m m' incidents opens all,
    λ ne. subst Q (sym (open_eq other m m' opens incidents)) (same ne),
  )

  pub modify-Holds :
      (f : Memory → Memory)
      → ((m : Memory)
          → ((f m).incidents_by_id ≡ m.incidents_by_id)
            × ((f m).open_incident_by_unit ≡ m.open_incident_by_unit))
      → Preserves Holds (modify f)
  modify-Holds f e w h small =
      same_Held w.ticks w.memory (f w.memory) (e w.memory).0 (e w.memory).1 (h small)

  pub now-Holds : Preserves Holds (now clock)
  now-Holds w h small =
      later w.ticks (suc w.ticks) w.memory (omega arith) (h (omega (arith, small)))

  act_on_type-Holds :
      (type : IncidentActionType) (wf : UnitWorkflow) (action : IncidentAction)
      → action.type ≡ type
      → wf.unit_id ≡ unit
      → Preserves Holds (act_on_incident clock wf action)
  unfolding act_on_incident apply_incident_action
  act_on_type-Holds none_action wf action e own w h = rw (e, act_on_incident) h
  act_on_type-Holds unset wf action e own w h = rw (act_on_incident, e, apply_incident_action, e) h
  act_on_type-Holds upsert wf action e own w h =
      rw (act_on_incident, e, apply_incident_action, e)
        (upsert-Holds wf action (get_open_incident_by_unit wf.unit_id w.memory) w own refl h)
  act_on_type-Holds close wf action e own w h =
      rw (act_on_incident, e, apply_incident_action, e)
        (close-Holds wf (get_open_incident_by_unit wf.unit_id w.memory) w own refl h)

  pub act_on_incident-Holds :
      (wf : UnitWorkflow) (action : IncidentAction)
      → wf.unit_id ≡ unit
      → Preserves Holds (act_on_incident clock wf action)
  act_on_incident-Holds wf action = act_on_type-Holds action.type wf action refl
