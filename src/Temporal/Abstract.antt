-- ===== src/Temporal/Abstract.antt =====
-- What the loop of `UnitWorkflow` in internal/temporalruntime/workflow.go promises: the unit moves by the
-- engine's answers to the events that are picked, and a timer that elapses is the one that was last
-- started for its key and not cancelled since.
use forge_mini.Base.{
  ◌+◌, ◌-◌, String, Option, none, some, List, [], ◌∷◌, ◌++◌, str_eq, if◌then◌else◌,
}
use forge_mini.Base.Errors.{Result, ok, err}
use forge_mini.Base.Machine.{Time}
use forge_mini.Signals.{Codec}
use forge_mini.Policy.{default_retry_policy}
use forge_mini.Workflow.State.{State, completed, scrapped, UnitWorkflow, new}
use forge_mini.Workflow.Decisions.{TimerRequest, TimerPayload, TransitionResult}
use forge_mini.Workflow.Engine.{apply_signal, apply_timer}
use forge_mini.Workflow.TimerMap.{timer_after}
use forge_mini.Workflow.Run.{Event, signalled, fired}
use forge_mini.Temporal.{Picked, operational, manual_timer, elapsed, broken}

-- a unit, and the timers that are set for it
pub record Course : Type 0 where
  pub wf : UnitWorkflow
  pub due : String → Option TimerPayload

-- the payload of a timer that is started: it is due at the time asked for, or at once
abbrev pub payload_at : Time → UnitWorkflow → TimerRequest → TimerPayload
payload_at now wf req = record {
  key = req.key;
  workflow_id = wf.workflow_id;
  unit_id = wf.unit_id;
  timer_type = req.timer_type;
  station_id = req.station_id;
  fire_at = now + (req.fire_at - now);
}

-- an answer of the engine, followed
abbrev pub followed : Time → TransitionResult → Course → Course
followed now r u = record {
  wf = r.next_workflow;
  due = λ key. timer_after (payload_at now r.next_workflow) r key (u.due key);
}

-- the timer of a key, taken away
abbrev pub without : String → Course → Course
without gone u = record u { due = λ key. if str_eq gone key then none else u.due key }

-- what follows for a unit that is neither completed nor scrapped
abbrev pub unless_over {ℓ} : {A : Type ℓ} → State → A → A → A
unless_over completed over rest = over
unless_over scrapped over rest = over
unless_over _ over rest = rest

abbrev pub followed_if : Time → Result TransitionResult → Course → Course
followed_if now (ok r) c = followed now r c
followed_if now (err e) c = c

-- A timer that elapses is no longer set, and the engine is given it.
abbrev pub elapsed_in : String → Time → Option TimerPayload → Course → Course
elapsed_in key now none c = c
elapsed_in key now (some timer) c = followed now (apply_timer c.wf timer now) (without key c)

abbrev pub elapsed_event : Time → Option TimerPayload → List Event
elapsed_event now none = []
elapsed_event now (some timer) = fired timer now ∷ []

-- the event that the engine is given for what is picked, if any
abbrev pub event_of : Picked → Course → List Event
event_of (operational signal now) c = signalled signal now ∷ []
event_of (manual_timer timer now) c = fired timer now ∷ []
event_of (elapsed key now) c = elapsed_event now (c.due key)
event_of (broken key) c = []

module _ (json : Codec) where
  abbrev pub advanced : Picked → Course → Course
  advanced (operational signal now) c =
      followed_if now (apply_signal json default_retry_policy c.wf signal now) c
  advanced (manual_timer timer now) c = followed now (apply_timer c.wf timer now) c
  advanced (elapsed key now) c = elapsed_in key now (c.due key) c
  advanced (broken key) c = without key c

  -- the course that a unit takes, and the events that it is given on the way
  abbrev pub course : List Picked → Course → Course
  course [] c = c
  course (p ∷ ps) c = unless_over c.wf.state c (course ps (advanced p c))

  abbrev pub events : List Picked → Course → List Event
  events [] c = []
  events (p ∷ ps) c = unless_over c.wf.state [] (event_of p c ++ events ps (advanced p c))

-- a new unit, for which no timer is set
abbrev pub beginning : String → Time → Course
unfolding new
beginning unit born = record { wf = new unit born; due = λ key. none }
