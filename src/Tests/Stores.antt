-- ===== src/Tests/Stores.antt =====
-- What the store holds after a signal and a timeout that opens an incident, identifiers of decisions,
-- and scheduled timers.
use forge_mini.Base.{ℕ, ◌%◌, ◌↔◌, ◌<◌, ◌≡◌, refl, List, [], ◌∷◌, arith, ◌^◌}
use forge_mini.Base.Machine.{unix_nano}
use forge_mini.Policy.{default_retry_policy}
use forge_mini.Policy.Default.{default-GivesReasons}
use forge_mini.Base.Dict.{lookup, insert}
use forge_mini.Base.Machine.{is_zero}
use forge_mini.Workflow.State.{new}
use forge_mini.Workflow.Engine.{
  known_workflow, settle, accepting, noted, dispatch, conclude, apply_signal, apply_timer, on_timer,
  on_timeout,
}
use forge_mini.Workflow.Cases.{on_unit_admitted}
use forge_mini.Store.{
  append_signal, signal_exists, get_workflow, found, append_decision, put_workflow,
  get_open_incident_by_unit, incident_or_zero, put_incident, put_unit_status, put_incident_view,
  delete_incident_view, put_station_health, list_at, list_decisions_by_workflow,
}
use forge_mini.Incidents.{is_resolved}
use forge_mini.App.Commit.{
  append_decisions, cancel_all, schedule_all, act_on_incident, apply_incident_action,
  upsert_incident, open_or_new, link_incident, link_and_save, save, rebuild_projections,
  record_station, refresh_incident_view, commit_transition,
}
use forge_mini.App.Service.{
  stamp, load_or_new, process_signal, unless_seen, handle_signal, handle_timer,
}
use forge_mini.App.Container.{fresh}
use forge_mini.App.Serve.{Call, of_signal, of_timer, call, serve}
use forge_mini.App.Incidents.{Distinct}
use forge_mini.App.Incidents.Linked.{IsLinked}
use forge_mini.App.Incidents.Serve.{IsOwn, serve-IsOwn}
use forge_mini.Temporal.{Picked, operational, elapsed, unit_workflow}
use forge_mini.Temporal.Scheduled.{IsScheduled, unit_workflow-IsScheduled}
use forge_mini.Tests.Fixtures.{entry, codec, clock, admission, timeout, tested}
use forge_mini.Workflow.Decisions.{cancel_timer, new_decision}
use forge_mini.Workflow.DecisionIds.{new_decision-ids_iff}

abbrev calls : List Call
calls = of_signal admission ∷ of_timer timeout ∷ []

-- The clock of the tests gives each time once in its first 1000 readings.
clock-Distinct : (n : ℕ) → n < 1000 → Distinct clock n
unfolding unix_nano
clock-Distinct n small i j below below' e = omega (arith, small, below, below', e)

calls_ticks : (serve codec default_retry_policy clock calls fresh).ticks ≡ 7
unfolding serve call handle_signal handle_timer stamp load_or_new process_signal unless_seen is_zero
    append_signal signal_exists get_workflow found lookup insert apply_signal known_workflow
    conclude dispatch on_unit_admitted settle accepting noted new apply_timer on_timer on_timeout
    commit_transition append_decisions append_decision cancel_all schedule_all act_on_incident
    apply_incident_action upsert_incident open_or_new link_incident link_and_save save
    rebuild_projections record_station refresh_incident_view put_workflow get_open_incident_by_unit
    incident_or_zero put_incident put_unit_status is_resolved put_incident_view delete_incident_view
    put_station_health list_at list_decisions_by_workflow
calls_ticks = refl

timeout-IsOwn :
    IsOwn "u-1" (serve codec default_retry_policy clock calls fresh).memory
    × IsLinked "u-1" (serve codec default_retry_policy clock calls fresh).memory
timeout-IsOwn =
    serve-IsOwn codec default_retry_policy clock calls "u-1" default-GivesReasons
      (clock-Distinct _ (omega (arith, calls_ticks)))

-- the two decisions that say which timers a test result cancels
two_cancels :
    ((new_decision tested cancel_timer "test_result_recorded" "test_result_timeout" "bench" 7).id
      ≡ (new_decision tested cancel_timer "test_result_recorded" "station_heartbeat_timeout" "bench"
          7).id)
    ↔ ((7 % 2 ^ 64 ≡ 7 % 2 ^ 64) × (cancel_timer ≡ cancel_timer))
two_cancels =
    new_decision-ids_iff tested tested cancel_timer cancel_timer "test_result_recorded"
      "test_result_recorded" "test_result_timeout" "station_heartbeat_timeout" "bench" "bench" 7 7

-- A unit enters the assembly station, and its heartbeat timer elapses.
abbrev picked : List Picked
picked = operational admission 1 ∷ operational entry 2 ∷ elapsed timeout.key 40 ∷ []

picked-IsScheduled : IsScheduled "u-1" (unit_workflow codec "u-1" 0 picked)
picked-IsScheduled = unit_workflow-IsScheduled codec "u-1" 0 picked tt
