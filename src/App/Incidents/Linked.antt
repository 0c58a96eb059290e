-- ===== src/App/Incidents/Linked.antt =====
-- The in-process runtime of internal/app/app.go and the open incidents: every stored snapshot names the
-- open incident of its unit.
use forge_mini.Base.{
  ℕ, ◌≤◌, String, ◌≡◌, refl, sym, ◌∙◌, ap, false, Option, some, Bool-cases, inl, inr, str_eq,
  if◌then◌else◌, eq_iff, arith,
}
use forge_mini.Base.Dict.{lookup, lookup-insert}
use forge_mini.Base.Machine.{Time}
use forge_mini.Incidents.{Incident}
use forge_mini.Workflow.State.{UnitWorkflow}
use forge_mini.Workflow.Decisions.{HandleResult, TransitionResult}
use forge_mini.Store.{Memory, get_open_incident_by_unit}
use forge_mini.App.Monad.{World}
use forge_mini.App.Commit.{commit_transition}
use forge_mini.App.Effects.{IsCommitted, id_of, linked}
use forge_mini.App.Committed.{commit_transition-IsCommitted}
use forge_mini.App.Incidents.{Distinct, AllOpen}
use forge_mini.App.Incidents.Kept.{commit_transition-Holds}
use forge_mini.App.Once.{Ends-after}

-- Every stored snapshot names the open incident of its unit, or none where there is none.
abbrev pub IsLinked : String → Memory → Type 0
IsLinked unit m =
    (wf : UnitWorkflow)
    → lookup unit m.workflows_by_unit ≡ some wf
    → wf.open_incident_id ≡ id_of (get_open_incident_by_unit unit m)

abbrev pub AllLinked : Memory → Type 0
AllLinked m = (unit : String) → IsLinked unit m

same_some : (a b : UnitWorkflow) → some a ≡ some b → a ≡ b
same_some a b e = cc

committed_IsLinked :
    (unit : String) (result : TransitionResult) (m m' : Memory) (h : HandleResult) (u : String)
    → IsCommitted unit result m m' h
    → result.next_workflow.unit_id ≡ unit
    → (str_eq unit u ≡ false
        → (wf : UnitWorkflow) → lookup u m.workflows_by_unit ≡ some wf
        → wf.open_incident_id ≡ id_of (get_open_incident_by_unit u m'))
    → IsLinked u m'
committed_IsLinked unit result m m' h u c own others wf at =
    let next = linked result.next_workflow h.incident_id in
    let read : lookup u m'.workflows_by_unit
        ≡ (if str_eq unit u then some next else lookup u m.workflows_by_unit) =
      rw (c.stored, lookup-insert result.next_workflow.unit_id u, own) refl in
    elim (Bool-cases (str_eq unit u)) [
      | inl q ↦
          let same = same_some next wf (sym (rw q at read) ∙ at) in
          ap (λ x. x.open_incident_id) (sym same)
          ∙ c.incident
          ∙ ap (λ k. id_of (get_open_incident_by_unit k m')) (ground (arith, eq_iff unit u))
      | inr q ↦ others q wf (sym (rw q at read) ∙ at)
    ]

module _ (clock : ℕ → Time) (N : ℕ) (distinct : Distinct clock N) where
  -- up to the reading `N` of the clock
  abbrev pub Tracked : World → Type 0
  Tracked w = w.ticks ≤ N → AllOpen clock w.ticks w.memory × AllLinked w.memory

  pub commit_transition-Tracked :
      (unit : String) (result : TransitionResult) (w : World)
      → result.next_workflow.unit_id ≡ unit
      → Tracked w
      → Tracked (commit_transition clock unit result w).1
  commit_transition-Tracked unit result w own tracked small =
      let Q = λ (u : String) (incident : Option Incident).
        (wf : UnitWorkflow)
        → lookup u w.memory.workflows_by_unit ≡ some wf
        → wf.open_incident_id ≡ id_of incident in
      let held = λ (u : String).
        commit_transition-Holds clock N distinct unit u (Q u) result own w
          (λ before. ((tracked before).0, λ ne. (tracked before).1 u)) small in
      (
        (held unit).0,
        λ u.
            Ends-after (λ h w'. IsCommitted unit result w.memory w'.memory h)
              (λ m'. (str_eq unit u ≡ false → Q u (get_open_incident_by_unit u m')) → IsLinked u m')
              (commit_transition clock unit result w)
              (commit_transition-IsCommitted clock result unit w)
              (λ h w' c others. committed_IsLinked unit result w.memory w'.memory h u c own others)
              (held u).1,
      )
