-- ===== src/Temporal.antt =====
-- The loop of `UnitWorkflow` in internal/temporalruntime/workflow.go. The Temporal SDK is outside: what
-- its selector picks is an event that the loop is given, with the reading of `Now` in that pass, which
-- is the same at every call of a pass. A scheduled timer is its payload; its `cancel` and its `future`
-- belong to the SDK, which can pick a future only while it is in the map of timers.
pub mod Abstract
pub mod Refines
pub mod Scheduled
pub mod Sdk
pub mod Worker
pub mod Runtime
pub mod Blind
use forge_mini.Base.{
  ℕ, ◌-◌, String, Bool, true, false, Option, none, some, List, [], ◌∷◌, if◌then◌else◌,
}
use forge_mini.Base.Dict.{Dict, lookup, insert, erase}
use forge_mini.Base.Errors.{Result, ok, err}
use forge_mini.Base.Machine.{Time, add}
use forge_mini.Signals.{OperationalSignal, Codec}
use forge_mini.Policy.{default_retry_policy}
use forge_mini.Workflow.State.{State, completed, scrapped, UnitWorkflow, new}
use forge_mini.Workflow.Decisions.{TimerPayload, TimerRequest, TransitionResult}
use forge_mini.Workflow.Engine.{apply_signal, apply_timer}

-- `isTerminal`
unfoldable pub is_terminal : State → Bool
is_terminal completed = true
is_terminal scrapped = true
is_terminal _ = false

-- the variables of `UnitWorkflow` that its callbacks share
pub record Loop : Type 0 where
  pub wf : UnitWorkflow
  pub timers : Dict TimerPayload

-- what the selector picks: a signal of one of the two channels, or the future of a timer, which gives
-- an error where its timer was cancelled from outside
pub data Picked : Type 0 where
  operational : OperationalSignal → Time → Picked
  manual_timer : TimerPayload → Time → Picked
  elapsed : String → Time → Picked
  broken : String → Picked

-- the loop over `TimersToCancel` in `applyTimerChanges`
unfoldable pub cancel_scheduled : List String → Dict TimerPayload → Dict TimerPayload
unfolding erase
cancel_scheduled [] timers = timers
cancel_scheduled (key ∷ keys) timers = cancel_scheduled keys (erase key timers)

-- the loop over `TimersToStart`: the duration is `FireAt.Sub(now)`, 0 where that is negative, as it is
-- for subtraction on ℕ
unfoldable pub start_scheduled :
    Time → UnitWorkflow → List TimerRequest → Dict TimerPayload → Dict TimerPayload
unfolding insert add
start_scheduled now wf [] timers = timers
start_scheduled now wf (req ∷ reqs) timers =
    let duration = req.fire_at - now in
    let payload : TimerPayload = record {
      key = req.key;
      workflow_id = wf.workflow_id;
      unit_id = wf.unit_id;
      timer_type = req.timer_type;
      station_id = req.station_id;
      fire_at = add now duration;
    } in
    start_scheduled now wf reqs (insert req.key payload timers)

-- `applyTimerChanges`
unfoldable pub apply_timer_changes :
    Time → UnitWorkflow → Dict TimerPayload → TransitionResult → Dict TimerPayload
unfolding cancel_scheduled start_scheduled
apply_timer_changes now wf timers result =
    start_scheduled now wf result.timers_to_start (cancel_scheduled result.timers_to_cancel timers)

-- `wf = result.NextWorkflow` and the changes of the timers
unfoldable pub take : Time → TransitionResult → Loop → Loop
unfolding apply_timer_changes
take now result loop = record {
  wf = result.next_workflow;
  timers = apply_timer_changes now result.next_workflow loop.timers result;
}

-- the callback of the signal channel: an error is logged, and nothing is changed
unfoldable pub take_signal : Time → Result TransitionResult → Loop → Loop
unfolding take
take_signal now (ok result) loop = take now result loop
take_signal now (err e) loop = loop

-- the callback of a timer's future: its timer leaves the map first
unfoldable pub elapse : String → Option TimerPayload → Time → Loop → Loop
unfolding take erase
elapse key none now loop = loop
elapse key (some payload) now loop =
    take now (apply_timer loop.wf payload now) (record loop { timers = erase key loop.timers })

module _ (json : Codec) where
  -- one pass of the loop
  unfoldable pub pass : Picked → Loop → Loop
  unfolding take take_signal elapse lookup erase
  pass (operational signal now) loop =
      take_signal now (apply_signal json default_retry_policy loop.wf signal now) loop
  pass (manual_timer timer now) loop = take now (apply_timer loop.wf timer now) loop
  pass (elapsed key now) loop = elapse key (lookup key loop.timers) now loop
  pass (broken key) loop = record loop { timers = erase key loop.timers }

  -- the loop: it ends in a terminal state, or waits once the picked events are used up
  unfoldable pub repeat : List Picked → Loop → Loop
  unfolding pass is_terminal
  repeat [] loop = loop
  repeat (p ∷ ps) loop =
      let rest = repeat ps (pass p loop) in if is_terminal loop.wf.state then loop else rest

  -- `UnitWorkflow`, as far as the picked events bring it
  unfoldable pub unit_workflow : String → Time → List Picked → Loop
  unfolding new repeat
  unit_workflow unit now picked = repeat picked (record { wf = new unit now; timers = [] })
