-- ===== src/Temporal/Refines.antt =====
-- The loop of `UnitWorkflow` in internal/temporalruntime/workflow.go and the engine's runs.
use forge_mini.Base.{
  ◌≡◌, refl, String, true, Option, none, some, List, [], ◌∷◌, ◌++◌, ◌∙◌, sym, ap, if◌then◌else◌,
  str_eq, Bool-cases, inl, inr, ◌⊎◌,
}
use forge_mini.Base.Dict.{Dict, lookup, insert, erase, lookup-erase}
use forge_mini.Base.Errors.{Result, ok, err}
use forge_mini.Base.Machine.{Time}
use forge_mini.Signals.{Codec}
use forge_mini.Policy.{default_retry_policy}
use forge_mini.Workflow.State.{UnitWorkflow, completed, scrapped, new}
use forge_mini.Workflow.Decisions.{TimerPayload, TransitionResult}
use forge_mini.Workflow.Run.{Event, kept, step, run}
use forge_mini.Workflow.State.{State}
use forge_mini.Workflow.Decisions.{TimerRequest}
use forge_mini.Workflow.Engine.{apply_signal, apply_timer}
use forge_mini.Workflow.TimerMap.{erase_all, insert_all, timer_after, lookup-followed}
use forge_mini.Base.Machine.{add}
use mathlib.Core.Path.{subst}
use forge_mini.Temporal.Abstract.{
  Course, payload_at, followed, without, unless_over, followed_if, elapsed_in, elapsed_event,
  event_of, advanced, course, events, beginning,
}
use forge_mini.Temporal.{
  apply_timer_changes, cancel_scheduled, start_scheduled, Loop, Picked, operational, manual_timer,
  elapsed, broken, take, take_signal, elapse, pass, repeat, is_terminal, unit_workflow,
}

-- the loop is where the course is, and has the timers that are set
abbrev pub IsAt : Loop → Course → Type 0
IsAt loop c = (loop.wf ≡ c.wf) × ((key : String) → lookup key loop.timers ≡ c.due key)

cancelled-erase_all :
    (keys : List String) (timers : Dict TimerPayload)
    → cancel_scheduled keys timers ≡ erase_all keys timers
unfolding cancel_scheduled
cancelled-erase_all [] timers = refl
cancelled-erase_all (key ∷ keys) timers = cancelled-erase_all keys (erase key timers)

started-insert_all :
    (now : Time) (wf : UnitWorkflow) (reqs : List TimerRequest) (timers : Dict TimerPayload)
    → start_scheduled now wf reqs timers ≡ insert_all (payload_at now wf) reqs timers
unfolding start_scheduled add
started-insert_all now wf [] timers = refl
started-insert_all now wf (req ∷ reqs) timers =
    started-insert_all now wf reqs (insert req.key (payload_at now wf req) timers)

changes-followed :
    (now : Time) (wf : UnitWorkflow) (r : TransitionResult) (timers : Dict TimerPayload)
    → apply_timer_changes now wf timers r
      ≡ insert_all (payload_at now wf) r.timers_to_start (erase_all r.timers_to_cancel timers)
unfolding apply_timer_changes
changes-followed now wf r timers =
    started-insert_all now wf r.timers_to_start (cancel_scheduled r.timers_to_cancel timers)
    ∙ ap (insert_all (payload_at now wf) r.timers_to_start)
        (cancelled-erase_all r.timers_to_cancel timers)

take-IsAt :
    (now : Time) (r : TransitionResult) (loop : Loop) (c : Course)
    → ((key : String) → lookup key loop.timers ≡ c.due key)
    → IsAt (take now r loop) (followed now r c)
unfolding take
take-IsAt now r loop c timers = (
  refl,
  λ key.
      ap (lookup key) (changes-followed now r.next_workflow r loop.timers)
      ∙ lookup-followed (payload_at now r.next_workflow) r loop.timers key
      ∙ ap (timer_after (payload_at now r.next_workflow) r key) (timers key),
)

signal-IsAt :
    (now : Time) (r : Result TransitionResult) (loop : Loop) (c : Course)
    → IsAt loop c
    → IsAt (take_signal now r loop) (followed_if now r c)
unfolding take_signal
signal-IsAt now (ok r) loop c h = take-IsAt now r loop c h.1
signal-IsAt now (err e) loop c h = h

without-erase :
    (gone : String) (timers : Dict TimerPayload) (c : Course)
    → ((key : String) → lookup key timers ≡ c.due key)
    → (key : String) → lookup key (erase gone timers) ≡ (without gone c).due key
without-erase gone timers c h key =
    lookup-erase gone key timers ∙ ap (λ o. if str_eq gone key then none else o) (h key)

elapse-IsAt :
    (key : String) (o : Option TimerPayload) (now : Time) (loop : Loop) (c : Course)
    → IsAt loop c
    → IsAt (elapse key o now loop) (elapsed_in key now o c)
unfolding elapse
elapse-IsAt key none now loop c h = h
elapse-IsAt key (some timer) now loop c (same, timers) =
    subst
      (λ wf.
        IsAt (elapse key (some timer) now loop)
          (followed now (apply_timer wf timer now) (without key c)))
      same
      (take-IsAt now (apply_timer loop.wf timer now)
        (record loop { timers = erase key loop.timers }) (without key c)
        (without-erase key loop.timers c timers))

module _ (json : Codec) where
  pass-IsAt :
      (p : Picked) (loop : Loop) (c : Course)
      → IsAt loop c
      → IsAt (pass json p loop) (advanced json p c)
  unfolding pass
  pass-IsAt (operational s now) loop c (same, timers) =
      let answer = λ (wf : UnitWorkflow). apply_signal json default_retry_policy wf s now in
      subst (λ wf. IsAt (take_signal now (answer loop.wf) loop) (followed_if now (answer wf) c))
        same (signal-IsAt now (answer loop.wf) loop c (same, timers))
  pass-IsAt (manual_timer timer now) loop c (same, timers) =
      let answer = λ (wf : UnitWorkflow). apply_timer wf timer now in
      subst (λ wf. IsAt (take now (answer loop.wf) loop) (followed now (answer wf) c)) same
        (take-IsAt now (answer loop.wf) loop c timers)
  pass-IsAt (elapsed key now) loop c (same, timers) =
      subst (λ o. IsAt (elapse key (lookup key loop.timers) now loop) (elapsed_in key now o c))
        (timers key) (elapse-IsAt key (lookup key loop.timers) now loop c (same, timers))
  pass-IsAt (broken key) loop c (same, timers) = (same, without-erase key loop.timers c timers)

  over-IsAt :
      (st : State) (stop go : Loop) (stop' go' : Course)
      → IsAt stop stop'
      → IsAt go go'
      → IsAt (if is_terminal st then stop else go) (unless_over st stop' go')
  unfolding is_terminal
  over-IsAt completed stop go stop' go' h k = h
  over-IsAt scrapped stop go stop' go' h k = h
  over-IsAt _ stop go stop' go' h k = k

  repeat-IsAt :
      (ps : List Picked) (loop : Loop) (c : Course)
      → IsAt loop c
      → IsAt (repeat json ps loop) (course json ps c)
  unfolding repeat
  repeat-IsAt [] loop c h = h
  repeat-IsAt (p ∷ ps) loop c h =
      subst
        (λ wf.
          IsAt (repeat json (p ∷ ps) loop)
            (unless_over wf.state c (course json ps (advanced json p c))))
        h.0
        (over-IsAt loop.wf.state loop (repeat json ps (pass json p loop)) c
          (course json ps (advanced json p c)) h
          (repeat-IsAt ps (pass json p loop) (advanced json p c) (pass-IsAt p loop c h)))

module _ (json : Codec) where
  abbrev after : UnitWorkflow → List Event → UnitWorkflow
  after wf es = (run json default_retry_policy wf es).0

  kept-followed_if :
      (now : Time) (r : Result TransitionResult) (c : Course) (rest : List Event)
      → after (kept c.wf r).0 rest ≡ after (followed_if now r c).wf rest
  unfolding kept
  kept-followed_if now (ok r) c rest = refl
  kept-followed_if now (err e) c rest = refl

  after-elapsed_event :
      (key : String) (now : Time) (o : Option TimerPayload) (c : Course) (rest : List Event)
      → after c.wf (elapsed_event now o ++ rest) ≡ after (elapsed_in key now o c).wf rest
  unfolding run step
  after-elapsed_event key now none c rest = refl
  after-elapsed_event key now (some timer) c rest = refl

  after-event_of :
      (p : Picked) (c : Course) (rest : List Event)
      → after c.wf (event_of p c ++ rest) ≡ after (advanced json p c).wf rest
  unfolding run step
  after-event_of (operational s now) c rest =
      kept-followed_if now (apply_signal json default_retry_policy c.wf s now) c rest
  after-event_of (manual_timer timer now) c rest = refl
  after-event_of (elapsed key now) c rest = after-elapsed_event key now (c.due key) c rest
  after-event_of (broken key) c rest = refl

  after-unless_over :
      (st : State) (es : List Event) (c next : Course)
      → after c.wf es ≡ next.wf
      → after c.wf (unless_over st [] es) ≡ (unless_over st c next).wf
  unfolding run
  after-unless_over completed es c next h = refl
  after-unless_over scrapped es c next h = refl
  after-unless_over _ es c next h = h

  after-events :
      (ps : List Picked) (c : Course) → after c.wf (events json ps c) ≡ (course json ps c).wf
  unfolding run
  after-events [] c = refl
  after-events (p ∷ ps) c =
      after-unless_over c.wf.state (event_of p c ++ events json ps (advanced json p c)) c
        (course json ps (advanced json p c))
        (after-event_of p c (events json ps (advanced json p c))
          ∙ after-events ps (advanced json p c))

  -- Whatever is picked, `UnitWorkflow` is where the course of the unit is that the picked events give:
  -- it has the snapshot of the course, and the timers in its map are exactly those that the course has
  -- set; and the engine's run of the events of the course takes the new snapshot to that snapshot.
  pub unit_workflow_runs :
      (unit : String) (born : Time) (ps : List Picked)
      → IsAt (unit_workflow json unit born ps) (course json ps (beginning unit born))
        × ((run json default_retry_policy (new unit born) (events json ps (beginning unit born))).0
            ≡ (unit_workflow json unit born ps).wf)
  unfolding unit_workflow lookup
  unit_workflow_runs unit born ps =
      let at =
        repeat-IsAt json ps (record { wf = new unit born; timers = [] }) (beginning unit born)
          (refl, λ key. refl) in
      (at, after-events ps (beginning unit born) ∙ sym at.0)

module _ (json : Codec) where
  ended :
      (ps : List Picked) (loop : Loop)
      → is_terminal loop.wf.state ≡ true
      → repeat json ps loop ≡ loop
  unfolding repeat
  ended [] loop e = refl
  ended (p ∷ ps) loop e = rw e refl

  repeat_ended :
      (ps qs : List Picked) (loop : Loop)
      → is_terminal (repeat json ps loop).wf.state ≡ true
      → repeat json (ps ++ qs) loop ≡ repeat json ps loop
  unfolding repeat
  repeat_ended [] qs loop e = ended qs loop e
  repeat_ended (p ∷ ps) qs loop e = elim (Bool-cases (is_terminal loop.wf.state)) [
    | inl t ↦ rw t refl
    | inr t ↦ rw t (repeat_ended ps qs (pass json p loop) (rw t at e))
  ]

  -- Once the picked events have brought `UnitWorkflow` to a unit that is completed or scrapped, no
  -- further signal and no timer, late or not, changes the snapshot or the timers.
  pub unit_workflow_ended :
      (unit : String) (born : Time) (ps qs : List Picked)
      → ((unit_workflow json unit born ps).wf.state ≡ completed)
        ⊎ ((unit_workflow json unit born ps).wf.state ≡ scrapped)
      → unit_workflow json unit born (ps ++ qs) ≡ unit_workflow json unit born ps
  unfolding unit_workflow is_terminal
  unit_workflow_ended unit born ps qs (inl e) = repeat_ended ps qs _ (rw e refl)
  unit_workflow_ended unit born ps qs (inr e) = repeat_ended ps qs _ (rw e refl)
