-- ===== src/App/Incidents/Serve.antt =====
-- The open incidents of the in-process runtime of internal/app/app.go, after any sequence of calls.
use forge_mini.Base.{ℕ, String, ◌≡◌, refl, ◌∙◌, sym, ap, false, some, List, [], ◌∷◌, arith}
use forge_mini.Base.Dict.{lookup}
use forge_mini.Base.Errors.{ok}
use forge_mini.Base.Machine.{Time}
use forge_mini.Signals.{Codec}
use forge_mini.Policy.{RetryPolicy}
use forge_mini.Incidents.{Incident, is_resolved}
use forge_mini.Workflow.Holds.{GivesReasons}
use forge_mini.Store.{Memory, found, get_workflow, get_incident_by_id, get_open_incident_by_unit}
use forge_mini.App.Monad.{World}
use forge_mini.App.Container.{fresh}
use forge_mini.App.Serve.{Call, of_signal, of_timer, call, serve, call-InOrder}
use forge_mini.App.Shown.{InOrder}
use forge_mini.App.Incidents.{Distinct, AllOpen, the_same, get-IsOpen}
use forge_mini.App.Incidents.Linked.{IsLinked, Tracked}
use forge_mini.App.Incidents.Service.{handle_signal-Tracked, handle_timer-Tracked}

-- What is read as the open incident of a unit is the unit's, not resolved, and stored under its
-- identifier.
abbrev pub IsOwn : String → Memory → Type 0
IsOwn unit m =
    (incident : Incident)
    → get_open_incident_by_unit unit m ≡ some incident
    → (incident.unit_id ≡ unit)
      × (is_resolved incident.status ≡ false)
      × (get_incident_by_id incident.id m ≡ ok incident)

AllOpen-IsOwn :
    (clock : ℕ → Time) (n : ℕ) (m : Memory) (unit : String) → AllOpen clock n m → IsOwn unit m
unfolding get_incident_by_id found
AllOpen-IsOwn clock n m unit all incident read =
    let (opened, named, stored) = get-IsOpen clock unit m n incident all read in
    let same = the_same opened.incident incident (sym opened.stored ∙ stored) in
    (
      ap (λ x. x.unit_id) (sym same) ∙ opened.own,
      ap (λ x. is_resolved x.status) (sym same) ∙ opened.unresolved,
      ap found stored,
    )

module _ (json : Codec) (policy : RetryPolicy) (clock : ℕ → Time) where
  call-Tracked :
      (N : ℕ) (distinct : Distinct clock N) (c : Call) (w : World)
      → InOrder w.memory
      → Tracked clock N distinct w
      → Tracked clock N distinct (call json policy clock c w)
  unfolding call
  call-Tracked N distinct (of_signal signal) w order tracked =
      handle_signal-Tracked clock N distinct json policy signal w order tracked
  call-Tracked N distinct (of_timer timer) w order tracked =
      handle_timer-Tracked clock N distinct json policy timer w order tracked

  served-Tracked :
      (N : ℕ) (distinct : Distinct clock N) (cs : List Call) (w : World)
      → GivesReasons policy
      → InOrder w.memory
      → Tracked clock N distinct w
      → Tracked clock N distinct (serve json policy clock cs w)
  unfolding serve
  served-Tracked N distinct [] w g order tracked = tracked
  served-Tracked N distinct (c ∷ cs) w g order tracked =
      served-Tracked N distinct cs (call json policy clock c w) g
        (call-InOrder json policy clock c w g order) (call-Tracked N distinct c w order tracked)

  -- From the empty store, after any list of calls of `HandleSignal` and `HandleTimer`, under a policy
  -- that gives a reason with every verdict, where the readings of the clock in these calls have
  -- different values of `UnixNano`: for every unit, the incident that is read as its open one is that
  -- unit's, not resolved, and stored under its identifier, and the snapshot of the unit, where one is
  -- stored, names it, or none where there is none.
  pub serve-IsOwn :
      (cs : List Call) (unit : String)
      → GivesReasons policy
      → Distinct clock (serve json policy clock cs fresh).ticks
      → IsOwn unit (serve json policy clock cs fresh).memory
        × IsLinked unit (serve json policy clock cs fresh).memory
  unfolding get_workflow lookup
  serve-IsOwn cs unit g distinct =
      let w = serve json policy clock cs fresh in
      let (all, named) =
        served-Tracked w.ticks distinct cs fresh g ((λ unit. tt), (λ unit. refl))
          (λ small. ((λ unit id at. absurd (cc)), (λ unit wf at. absurd (cc)))) (omega arith) in
      (AllOpen-IsOwn clock w.ticks w.memory unit all, named unit)
