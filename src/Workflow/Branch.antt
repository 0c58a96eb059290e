-- ===== src/Workflow/Branch.antt =====
-- What a case of `Engine.ApplySignal` in internal/workflow/engine.go does with its result.
use forge_mini.Base.{String, List, ◌++◌, ◌*◌}
use forge_mini.Base.Errors.{Error}
use forge_mini.Base.Machine.{Time, add, second}
use forge_mini.Signals.{OperationalSignal}
use forge_mini.Workflow.State.{TimerType, heartbeat_timeout, UnitWorkflow}
use forge_mini.Workflow.Decisions.{WorkflowDecision, TimerRequest, TransitionResult}
use forge_mini.Workflow.Timers.{timer_key}

-- How a case of the `switch` ends: `return reject(wf, signal, now, reason), nil`, the return of an
-- error, or going on to the timer bookkeeping below the `switch` with `next` and `result`.
pub data Branch : Type 0 where
  reject_with : String → Branch
  fail_with : Error → Branch
  proceed : UnitWorkflow → TransitionResult → Branch

abbrev pub unexpected : Branch
unexpected = reject_with "unexpected_signal_for_state"

-- `result.Decisions = append(result.Decisions, …)`, and so for the timers
abbrev pub with_decisions : TransitionResult → List WorkflowDecision → TransitionResult
with_decisions r more = record r { decisions = r.decisions ++ more }

abbrev pub start_timers : TransitionResult → List TimerRequest → TransitionResult
start_timers r more = record r { timers_to_start = r.timers_to_start ++ more }

abbrev pub cancel_timers : TransitionResult → List String → TransitionResult
cancel_timers r more = record r { timers_to_cancel = r.timers_to_cancel ++ more }

-- A `TimerRequest` literal: every one has the key of its own type and station.
abbrev pub timer_request : String → TimerType → String → Time → TimerRequest
timer_request unit type station fire_at = record {
  key = timer_key unit type station;
  timer_type = type;
  station_id = station;
  fire_at = fire_at;
}

-- the heartbeat timer of a station, due in 30 seconds
unfoldable pub heartbeat_request : OperationalSignal → Time → String → TimerRequest
unfolding add
heartbeat_request signal now station =
    timer_request signal.unit_id heartbeat_timeout station (add now (30 * second))
