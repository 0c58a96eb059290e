-- ===== src/Tests.antt =====
-- Concrete runs of the program's parts, and of what is proved of them.
mod Fixtures
mod Server
mod Stores
use forge_mini.Base.{
  ℕ, ◌+◌, ◌≤◌, String, ◌≡◌, refl, ◌↔◌, inl, inr, ◌++◌, List, [], ◌∷◌, arith, true, false,
}
use forge_mini.Base.Errors.{ok, err, decode_test_failure_payload}
use forge_mini.Signals.{quality_disposition}
use forge_mini.Policy.{default_retry_policy, default_evaluate}
use forge_mini.Policy.Default.{default-GivesReasons, default-RetriesOnce, default_evaluate_iff}
use forge_mini.Workflow.State.{on_hold, completed, retry_pending, retry_backoff, new}
use forge_mini.Workflow.Keys.{timer_key-injective, prefix-ne-nil}
use forge_mini.Workflow.Engine.{
  settle, noted, accepting, apply_signal, apply_timer, on_timer, on_timeout, known_workflow, reject,
  dispatch, conclude,
}
use forge_mini.Workflow.TestCases.{on_test_failed}
use forge_mini.Base.Dict.{lookup}
use forge_mini.Workflow.Lifecycle.{Advance, AcceptedInto, Undecodable, failures}
use forge_mini.Workflow.Lifecycle.Complete.{apply_signal-AcceptedInto_iff}
use forge_mini.Workflow.Lifecycle.Refusals.{
  IsRefusal, AnsweredWith, apply_signal-IsRefusal, finished_refuses, apply_signal-err_iff,
}
use forge_mini.Workflow.Holds.{FitsIn, apply_signal-FitsIn, apply_timer-FitsIn}
use forge_mini.Workflow.Outcome.{NextIs}
use forge_mini.Workflow.ActiveTimers.{Distinct}
use forge_mini.Workflow.RetryBudget.{retries}
use forge_mini.Workflow.Run.{signalled, fired, run}
use forge_mini.Workflow.Run.Orderly.{run_in_budget}
use forge_mini.Workflow.Run.Counts.{failed_tests, run_counts}
use forge_mini.Workflow.Run.{Event}
use forge_mini.Signals.{assembly_completed, test_started}
use forge_mini.Base.Machine.{is_negative}
use forge_mini.Workflow.Finish.{CanFinish, unfinished-CanFinish}
use forge_mini.Store.{new_memory, put_incident, get_open_incident_by_unit}
use forge_mini.Workflow.Cases.{on_unit_admitted, on_quality_disposition, disposition}
use forge_mini.Workflow.Outcome.{ResultIs}
use forge_mini.Triage.Agrees.{IsAgreed, apply_signal-IsAgreed, apply_timer-IsAgreed}
use forge_mini.Temporal.{
  Picked, operational, manual_timer, elapsed, unit_workflow, repeat, pass, take_signal, take,
  is_terminal,
}
use forge_mini.Temporal.Abstract.{course, events, beginning}
use forge_mini.Temporal.Refines.{IsAt, unit_workflow_runs, unit_workflow_ended}
use forge_mini.Store.Reads.{open_after, get_open-put_incident}
use forge_mini.App.Commit.{commit_transition}
use forge_mini.App.Effects.{Ends}
use forge_mini.App.Recorded.{IsRecorded, commit_transition-IsRecorded}
use forge_mini.App.Service.{handle_signal, duplicate_result}
use forge_mini.App.Once.{handle_signal_again}
use forge_mini.App.Shown.{InOrder}
use forge_mini.App.Container.{fresh}
use forge_mini.App.Serve.{of_signal, of_timer, serve, serve-InOrder}
use forge_mini.Tests.Fixtures.{
  no_input, codec, clock, signal_of, admission, entry, failure, bad_failure_signal, timeout,
  fresh_unit, tested, held, finished, route, open_incident,
}

tested_fails :
    let k = known_workflow tested failure 7 in
    Advance codec default_retry_policy failure k.state (failures k) retry_pending
    ↔ AcceptedInto retry_pending (apply_signal codec default_retry_policy tested failure 7)
tested_fails =
    apply_signal-AcceptedInto_iff codec default_retry_policy failure tested 7 retry_pending

three_calls :
    InOrder
      (serve codec default_retry_policy clock
        (of_signal admission ∷ of_signal entry ∷ of_timer timeout ∷ [])
        fresh).memory
three_calls =
    serve-InOrder codec default_retry_policy clock
      (of_signal admission ∷ of_signal entry ∷ of_timer timeout ∷ []) default-GivesReasons

three_events :
    let (wf, decisions) =
      run codec default_retry_policy
        (new "u-1" 0)
        (signalled admission 1 ∷ signalled entry 2 ∷ fired timeout 3 ∷ []) in
    Distinct wf.active_timer_keys × (retries decisions ≤ 1)
three_events =
    run_in_budget codec default_retry_policy "u-1" 0
      (signalled admission 1 ∷ signalled entry 2 ∷ fired timeout 3 ∷ []) default-RetriesOnce
      (refl, (refl, tt)) (omega arith)

-- A unit fails its test, and a second report of the failure comes too late.
abbrev failing : List Event
failing =
    signalled admission 1
    ∷ signalled entry 2
    ∷ signalled (signal_of "s-6" assembly_completed "assembly" "") 3
    ∷ signalled (signal_of "s-7" test_started "test" "") 4
    ∷ signalled failure 5
    ∷ signalled failure 6
    ∷ []

failing_counts :
    let wf = (run codec default_retry_policy (new "u-1" 0) failing).0 in
    (failures wf ≡ failed_tests codec default_retry_policy (new "u-1" 0) failing)
    × (failures wf ≤ 6)
    × (is_negative (failures wf) ≡ false)
failing_counts = run_counts codec default_retry_policy "u-1" 0 failing (omega arith)

admitted_again :
    let w = (handle_signal codec default_retry_policy clock admission fresh).1 in
    ((handle_signal codec default_retry_policy clock admission w).0 ≡ ok duplicate_result)
    × ((handle_signal codec default_retry_policy clock admission w).1.memory ≡ w.memory)
admitted_again = handle_signal_again codec default_retry_policy clock admission fresh

held-CanFinish : CanFinish codec default_retry_policy held
unfolding new
held-CanFinish =
    unfinished-CanFinish codec default_retry_policy held route (prefix-ne-nil "u-1")
      (λ e. ground arith) (λ e. ground arith)

timeout-IsRecorded :
    Ends
      (λ h w. IsRecorded clock "u-1" (apply_timer tested timeout 7) fresh.memory w.memory h)
      (commit_transition clock "u-1" (apply_timer tested timeout 7) fresh)
unfolding apply_timer on_timer on_timeout settle noted accepting new
timeout-IsRecorded =
    commit_transition-IsRecorded clock "u-1" (apply_timer tested timeout 7) refl fresh

finished_refuses_failure :
    AnsweredWith
      (IsRefusal finished failure 7)
      (apply_signal codec default_retry_policy finished failure 7)
unfolding new
finished_refuses_failure =
    finished_refuses codec default_retry_policy failure finished 7 (inl refl) (prefix-ne-nil "u-1")

early_failure_refused :
    IsRefusal
      (known_workflow fresh_unit failure 7)
      failure
      7
      (reject fresh_unit failure 7 "unexpected_signal_for_state")
unfolding apply_signal new reject known_workflow dispatch conclude on_test_failed
early_failure_refused =
    apply_signal-IsRefusal codec default_retry_policy failure fresh_unit 7
      (reject fresh_unit failure 7 "unexpected_signal_for_state") refl refl

empty_failure_payload :
    (apply_signal codec default_retry_policy tested bad_failure_signal 7
      ≡ err (decode_test_failure_payload no_input))
    ↔ Undecodable codec bad_failure_signal
        (known_workflow tested bad_failure_signal 7).state
        (decode_test_failure_payload no_input)
empty_failure_payload =
    apply_signal-err_iff codec default_retry_policy bad_failure_signal tested 7
      (decode_test_failure_payload no_input)

abbrev unit : String
unit = "u-1"

abbrev bench : String
bench = "test"

same_key : (unit ≡ unit) × (retry_backoff ≡ retry_backoff) × (bench ≡ bench)
same_key =
    timer_key-injective unit unit retry_backoff retry_backoff bench bench
      ((λ e. ground arith), ((λ e. ground arith), ((λ e. ground arith), tt)))
      ((λ e. ground arith), ((λ e. ground arith), ((λ e. ground arith), tt))) tt tt refl

failure_fits : NextIs FitsIn (apply_signal codec default_retry_policy tested failure 7)
unfolding new
failure_fits =
    apply_signal-FitsIn codec default_retry_policy tested failure 7 default-GivesReasons
      (refl, refl)

timeout_fits : FitsIn (apply_timer tested timeout 7).next_workflow
unfolding new
timeout_fits = apply_timer-FitsIn tested timeout 7 (refl, refl)

abbrev flaky : String
flaky = "flaky_infra"

abbrev no_failures : ℕ
no_failures = 0

first_retry :
    ((default_evaluate "flaky_infra" 0).retry_authorized ≡ true)
    ↔ ((flaky ≡ flaky) × (no_failures ≡ no_failures))
first_retry = default_evaluate_iff "flaky_infra" 0 (omega arith)

incident_opened :
    get_open_incident_by_unit "u-1" (put_incident open_incident new_memory)
    ≡ open_after open_incident "u-1" new_memory
unfolding lookup
incident_opened = get_open-put_incident open_incident "u-1" new_memory (λ other e. ground arith)

-- A timeout that fires late takes a completed unit back to a hold.
late_timeout : (apply_timer finished timeout 7).next_workflow.state ≡ on_hold
unfolding apply_timer on_timer on_timeout
late_timeout = refl

failure-IsAgreed : ResultIs IsAgreed (apply_signal codec default_retry_policy tested failure 7)
failure-IsAgreed = apply_signal-IsAgreed codec default_retry_policy tested failure 7

timeout-IsAgreed : IsAgreed (apply_timer tested timeout 7)
timeout-IsAgreed = apply_timer-IsAgreed tested timeout 7

abbrev picked : List Picked
picked =
    operational admission 1
    ∷ operational entry 2
    ∷ elapsed "u-1:station_heartbeat_timeout:assembly" 33
    ∷ []

picked_runs :
    IsAt (unit_workflow codec "u-1" 0 picked) (course codec picked (beginning "u-1" 0))
    × ((run codec default_retry_policy (new "u-1" 0) (events codec picked (beginning "u-1" 0))).0
        ≡ (unit_workflow codec "u-1" 0 picked).wf)
picked_runs = unit_workflow_runs codec "u-1" 0 picked

-- A unit on hold is scrapped, and then the timeout fires again.
abbrev scrapping : List Picked
scrapping =
    operational admission 1
    ∷ manual_timer timeout 33
    ∷ operational (signal_of "s-5" quality_disposition "" "scrap") 40
    ∷ []

scrapped_ended :
    unit_workflow codec "u-1" 0 (scrapping ++ (manual_timer timeout 50 ∷ []))
    ≡ unit_workflow codec "u-1" 0 scrapping
unfolding unit_workflow repeat pass take_signal take is_terminal apply_signal dispatch
    on_unit_admitted apply_timer on_timer on_timeout on_quality_disposition disposition new
    known_workflow conclude settle noted accepting
scrapped_ended =
    unit_workflow_ended codec "u-1" 0 scrapping (manual_timer timeout 50 ∷ []) (inr refl)
