-- ===== src/Temporal/Scheduled.antt =====
-- The timers that `UnitWorkflow` of internal/temporalruntime/workflow.go has scheduled, against the active
-- timer keys of its snapshot.
use forge_mini.Base.{
  String, ◌≡◌, refl, ◌∙◌, sym, ap, ◌⊎◌, inl, inr, true, ◌&&◌, not, Option, none, some, Bool-cases,
  List, [], ◌∷◌, str_eq, eq_iff, arith,
}
use forge_mini.Base.Dict.{Dict, lookup, erase, lookup-insert, lookup-erase}
use forge_mini.Base.Errors.{Result, ok, err}
use forge_mini.Base.Machine.{Time}
use forge_mini.Signals.{Codec}
use forge_mini.Policy.{default_retry_policy}
use forge_mini.Workflow.State.{UnitWorkflow, new}
use forge_mini.Workflow.Decisions.{TimerRequest, TimerPayload, TransitionResult}
use forge_mini.Workflow.Engine.{apply_signal, apply_timer}
use forge_mini.Workflow.Keys.{prefix-ne-nil}
use forge_mini.Workflow.Identity.{IsOf, AnswersFor, apply_signal-AnswersFor, apply_timer-AnswersFor}
use forge_mini.Workflow.Outcome.{ResultIs}
use forge_mini.Workflow.Scheduling.{starts, NotIn, AreApart-NotIn}
use forge_mini.Workflow.Activates.{Activates, apply_signal-Activates, apply_timer-Activates}
use forge_mini.Workflow.Timers.{contains, remove_timer}
use forge_mini.Workflow.ActiveTimers.{contains-remove_timer}
use forge_mini.Temporal.{
  is_terminal, Loop, Picked, operational, manual_timer, elapsed, broken, cancel_scheduled,
  start_scheduled, apply_timer_changes, take, take_signal, elapse, pass, repeat, unit_workflow,
}

-- Every scheduled timer stands under its own key, which is active.
abbrev pub AllActive : Dict TimerPayload → List String → Type 0
AllActive timers keys =
    (key : String) (p : TimerPayload)
    → lookup key timers ≡ some p
    → (p.key ≡ key) × (contains keys key ≡ true)

-- no timer is sent by hand
abbrev pub NoneManual : List Picked → Type 0
NoneManual [] = Unit
NoneManual (manual_timer timer now ∷ ps) = ⊥
NoneManual (_ ∷ ps) = NoneManual ps

cancelled :
    (keys : List String) (timers : Dict TimerPayload) (key : String) (p : TimerPayload)
    → lookup key (cancel_scheduled keys timers) ≡ some p
    → (lookup key timers ≡ some p) × NotIn key keys
unfolding cancel_scheduled
cancelled [] timers key p e = (e, tt)
cancelled (k ∷ keys) timers key p e =
    let (there, kept) = cancelled keys (erase k timers) key p e in
    let read = sym (lookup-erase k key timers) ∙ there in
    elim (Bool-cases (str_eq k key)) [
      | inl q ↦ let no : none ≡ some p = rw q at read in absurd (cc)
      | inr q ↦ (rw q at read, (q, kept))
    ]

the_payload : (a b : TimerPayload) → some a ≡ some b → a ≡ b
the_payload a b e = cc

started :
    (now : Time) (wf : UnitWorkflow) (reqs : List TimerRequest) (timers : Dict TimerPayload)
    (key : String) (p : TimerPayload)
    → lookup key (start_scheduled now wf reqs timers) ≡ some p
    → ((p.key ≡ key) × (starts reqs key ≡ true)) ⊎ (lookup key timers ≡ some p)
unfolding start_scheduled starts
started now wf [] timers key p e = inr e
started now wf (req ∷ reqs) timers key p e = elim (started now wf reqs _ key p e) [
  | inl (own, s) ↦ inl (own, ground (arith, s))
  | inr there ↦
      let read = sym (lookup-insert req.key key _ timers) ∙ there in
      elim (Bool-cases (str_eq req.key key)) [
        | inl q ↦
            let same = the_payload _ p (rw q at read) in
            inl (sym (ap (λ x. x.key) same) ∙ ground (arith, eq_iff req.key key), rw q refl)
        | inr q ↦ inr (rw q at read)
      ]
]

-- After the changes that an answer asks for, every scheduled timer is active, if the answer activates
-- those that it starts and those that it leaves.
changed-AllActive :
    (now : Time) (wf : UnitWorkflow) (timers : Dict TimerPayload) (r : TransitionResult)
    (keys : List String)
    → Activates keys r
    → AllActive timers keys
    → AllActive (apply_timer_changes now wf timers r) r.next_workflow.active_timer_keys
unfolding apply_timer_changes
changed-AllActive now wf timers r keys (apart, live) all key p e =
    elim (started now wf r.timers_to_start (cancel_scheduled r.timers_to_cancel timers) key p e) [
      | inl (own, s) ↦ (
        own,
        live key (rw s (ground arith))
            (AreApart-NotIn r.timers_to_cancel r.timers_to_start key apart s),
      )
      | inr there ↦
          let (before, kept) = cancelled r.timers_to_cancel timers key p there in
          let (own, active) = all key p before in (own, live key (rw active refl) kept)
    ]

erased-AllActive :
    (timers : Dict TimerPayload) (keys : List String) (gone : String)
    → AllActive timers keys
    → (key : String) (p : TimerPayload) → lookup key (erase gone timers) ≡ some p
    → (p.key ≡ key) × (contains keys key && not (str_eq gone key) ≡ true)
erased-AllActive timers keys gone all key p e =
    let read = sym (lookup-erase gone key timers) ∙ e in
    elim (Bool-cases (str_eq gone key)) [
      | inl q ↦ let no : none ≡ some p = rw q at read in absurd (cc)
      | inr q ↦ let (own, active) = all key p (rw q at read) in (own, rw (active, q) refl)
    ]

first : (p : Picked) (ps : List Picked) → NoneManual (p ∷ ps) → NoneManual (p ∷ [])
first (operational s now) ps n = tt
first (manual_timer timer now) ps n = n
first (elapsed key now) ps n = tt
first (broken key) ps n = tt

others : (p : Picked) (ps : List Picked) → NoneManual (p ∷ ps) → NoneManual ps
others (operational s now) ps n = n
others (manual_timer timer now) ps n = absurd n
others (elapsed key now) ps n = n
others (broken key) ps n = n

module _ (unit : String) where
  -- the snapshot is that of the unit, and every scheduled timer is active
  abbrev pub IsScheduled : Loop → Type 0
  IsScheduled loop = IsOf unit loop.wf × AllActive loop.timers loop.wf.active_timer_keys

  signal-IsScheduled :
      (now : Time) (r : Result TransitionResult) (loop : Loop)
      → ResultIs (AnswersFor unit) r
      → ResultIs (Activates loop.wf.active_timer_keys) r
      → IsScheduled loop
      → IsScheduled (take_signal now r loop)
  unfolding take_signal take
  signal-IsScheduled now (ok r) loop answers live (own, all) = (
    answers.0,
    changed-AllActive now r.next_workflow loop.timers r loop.wf.active_timer_keys live all,
  )
  signal-IsScheduled now (err e) loop answers live h = h

  timer-IsScheduled :
      (now : Time) (loop : Loop) (key : String) (found : Option TimerPayload)
      → lookup key loop.timers ≡ found
      → IsScheduled loop
      → IsScheduled (elapse key found now loop)
  unfolding elapse take
  timer-IsScheduled now loop key none e h = h
  timer-IsScheduled now loop key (some p) e (own, all) =
      let keys = remove_timer loop.wf.active_timer_keys p.key in
      let left : AllActive (erase key loop.timers) keys = λ k q there.
        let (same, live) =
          erased-AllActive loop.timers loop.wf.active_timer_keys key all k q there in
        (same, contains-remove_timer loop.wf.active_timer_keys p.key k ∙ rw (all key p e).0 live) in
      (
        (apply_timer-AnswersFor unit loop.wf p now own).0,
        changed-AllActive now (apply_timer loop.wf p now).next_workflow (erase key loop.timers)
            (apply_timer loop.wf p now) keys (apply_timer-Activates loop.wf p now) left,
      )

  pass-IsScheduled :
      (json : Codec) (p : Picked) (loop : Loop)
      → NoneManual (p ∷ [])
      → IsScheduled loop
      → IsScheduled (pass json p loop)
  unfolding pass
  pass-IsScheduled json (operational s now) loop n h =
      signal-IsScheduled now (apply_signal json default_retry_policy loop.wf s now) loop
        (apply_signal-AnswersFor json default_retry_policy unit s now loop.wf h.0)
        (apply_signal-Activates json default_retry_policy loop.wf s now
          (λ e. prefix-ne-nil unit (sym h.0.1 ∙ e)))
        h
  pass-IsScheduled json (manual_timer timer now) loop n h = absurd n
  pass-IsScheduled json (elapsed key now) loop n h =
      timer-IsScheduled now loop key (lookup key loop.timers) refl h
  pass-IsScheduled json (broken key) loop n (own, all) = (
    own,
    λ k p e.
        let (same, live) = erased-AllActive loop.timers loop.wf.active_timer_keys key all k p e in
        (same, ground (arith, live)),
  )

  repeat-IsScheduled :
      (json : Codec) (ps : List Picked) (loop : Loop)
      → NoneManual ps
      → IsScheduled loop
      → IsScheduled (repeat json ps loop)
  unfolding repeat
  repeat-IsScheduled json [] loop n h = h
  repeat-IsScheduled json (p ∷ ps) loop n h = elim (Bool-cases (is_terminal loop.wf.state)) [
    | inl e ↦ rw (repeat, e) h
    | inr e ↦
        rw (repeat, e)
          (repeat-IsScheduled json ps (pass json p loop) (others p ps n)
            (pass-IsScheduled json p loop (first p ps n) h))
  ]

-- Whatever the selector picks, where no timer is sent by hand: the snapshot of `UnitWorkflow` has the
-- identifiers of the unit and of its workflow, and every timer that is scheduled stands under its own
-- key, which is one of the snapshot's active timer keys.
pub unit_workflow-IsScheduled :
    (json : Codec) (unit : String) (born : Time) (picked : List Picked)
    → NoneManual picked
    → IsScheduled unit (unit_workflow json unit born picked)
unfolding unit_workflow new lookup
unit_workflow-IsScheduled json unit born picked n =
    repeat-IsScheduled unit json picked (record { wf = new unit born; timers = [] }) n
      ((refl, refl), (λ key p e. absurd (cc)))
