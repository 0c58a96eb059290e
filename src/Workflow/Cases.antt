-- ===== src/Workflow/Cases.antt =====
-- The cases of `Engine.ApplySignal` in internal/workflow/engine.go for assembly, heartbeats, quality,
-- rework and inspection. A case is given `result` with the accepting decision in it, and `next` with
-- the signal noted.
use forge_mini.Base.{Bool, true, false, [], ◌∷◌, str_eq, if◌then◌else◌}
use forge_mini.Base.Errors.{decode_quality_disposition_payload, ok, err}
use forge_mini.Base.Machine.{Time}
use forge_mini.Signals.{OperationalSignal, QualityDispositionPayload, Codec}
use forge_mini.Workflow.State.{
  State, pending, ready_for_assembly, in_assembly, ready_for_test, awaiting_test_result, on_hold,
  awaiting_rework, in_rework, ready_for_inspection, in_inspection, completed, scrapped,
  heartbeat_timeout, timer_text, UnitWorkflow,
}
use forge_mini.Workflow.Decisions.{
  cancel_timer, schedule_timer, route_to_rework, TransitionResult, new_decision,
  transition_decision,
}
use forge_mini.Workflow.Timers.{timer_key}
use forge_mini.Workflow.Branch.{
  Branch, reject_with, fail_with, proceed, unexpected, with_decisions, start_timers, cancel_timers,
  heartbeat_request,
}

-- the states whose station sends heartbeats
abbrev pub is_active : State → Bool
is_active in_assembly = true
is_active awaiting_test_result = true
is_active in_rework = true
is_active in_inspection = true
is_active _ = false

module _ (result : TransitionResult) (signal : OperationalSignal) (now : Time) where
  -- `case signals.SignalUnitAdmitted`
  unfoldable pub on_unit_admitted : UnitWorkflow → Branch
  unfolding transition_decision
  on_unit_admitted next = elim next.state [
    | pending ↦
        proceed (record next { state = ready_for_assembly })
          (with_decisions result (transition_decision next ready_for_assembly now ∷ []))
    | _ ↦ unexpected
  ]

  -- both branches of `case signals.SignalStationEntered` that go on
  enter : State → UnitWorkflow → Branch
  unfolding heartbeat_request transition_decision
  enter state next =
      let next = record next { state = state; current_station_id = signal.station_id } in
      let result = with_decisions result (transition_decision next state now ∷ []) in
      proceed next (start_timers result (heartbeat_request signal now signal.station_id ∷ []))

  -- `case signals.SignalStationEntered`
  unfoldable pub on_station_entered : UnitWorkflow → Branch
  unfolding enter
  on_station_entered next = elim next.state [
    | ready_for_assembly ↦ enter in_assembly next
    | ready_for_inspection ↦
        if str_eq signal.station_id "inspection"
        then enter in_inspection next
        else reject_with "unexpected_station_for_state"
    | _ ↦ unexpected
  ]

  -- `case signals.SignalAssemblyCompleted`
  unfoldable pub on_assembly_completed : UnitWorkflow → Branch
  unfolding new_decision transition_decision timer_text timer_key
  on_assembly_completed next = elim next.state [
    | in_assembly ↦
        let next = record next { state = ready_for_test; current_station_id = "test" } in
        let cancelled =
          new_decision next cancel_timer "assembly_completed" (timer_text heartbeat_timeout)
            signal.source now in
        let result =
          with_decisions result (cancelled ∷ transition_decision next ready_for_test now ∷ []) in
        proceed next
          (cancel_timers result (timer_key signal.unit_id heartbeat_timeout signal.station_id ∷ []))
    | _ ↦ unexpected
  ]

  -- `case signals.SignalHeartbeatReceived`
  unfoldable pub on_heartbeat : UnitWorkflow → Branch
  unfolding heartbeat_request new_decision timer_text
  on_heartbeat next =
      let refresh =
        new_decision next schedule_timer "heartbeat_refresh" (timer_text heartbeat_timeout)
          signal.source now in
      let result = with_decisions result (refresh ∷ []) in
      if is_active next.state
      then proceed next (start_timers result (heartbeat_request signal now signal.station_id ∷ []))
      else unexpected

  -- `switch payload.Action` of `case signals.SignalQualityDisposition`
  unfoldable pub disposition : UnitWorkflow → QualityDispositionPayload → Branch
  unfolding new_decision transition_decision
  disposition next payload =
      if str_eq payload.action "route_to_rework"
      then (let next = record next { state = awaiting_rework; active_hold_reason = "" } in
          let routed =
            new_decision next route_to_rework "rework_approved" payload.reason payload.actor now in
          proceed next
            (with_decisions result (routed ∷ transition_decision next awaiting_rework now ∷ [])))
      else if str_eq payload.action "scrap"
      then (let next = record next { state = scrapped; active_hold_reason = "" } in
          proceed next (with_decisions result (transition_decision next scrapped now ∷ [])))
      else reject_with "unsupported_quality_action"

  -- `case signals.SignalQualityDisposition`
  unfoldable pub on_quality_disposition : Codec → UnitWorkflow → Branch
  on_quality_disposition json next = elim next.state [
    | on_hold ↦ elim (json.unmarshal_quality_disposition signal.payload) [
      | err e ↦ fail_with (decode_quality_disposition_payload e)
      | ok payload ↦ disposition next payload
    ]
    | _ ↦ unexpected
  ]

  -- `case signals.SignalReworkStarted`
  unfoldable pub on_rework_started : UnitWorkflow → Branch
  unfolding transition_decision
  on_rework_started next = elim next.state [
    | awaiting_rework ↦
        let next = record next { state = in_rework; current_station_id = "rework" } in
        proceed next (with_decisions result (transition_decision next in_rework now ∷ []))
    | _ ↦ unexpected
  ]

  -- `case signals.SignalReworkCompleted`
  unfoldable pub on_rework_completed : UnitWorkflow → Branch
  unfolding transition_decision
  on_rework_completed next = elim next.state [
    | in_rework ↦
        let next = record next { state = ready_for_test; current_station_id = "test" } in
        proceed next (with_decisions result (transition_decision next ready_for_test now ∷ []))
    | _ ↦ unexpected
  ]

  -- `case signals.SignalInspectionCompleted`
  unfoldable pub on_inspection_completed : UnitWorkflow → Branch
  unfolding new_decision transition_decision timer_text timer_key
  on_inspection_completed next = elim next.state [
    | in_inspection ↦
        let next = record next { state = completed; current_station_id = "" } in
        let cancelled =
          new_decision next cancel_timer "inspection_completed" (timer_text heartbeat_timeout)
            signal.source now in
        let result =
          with_decisions result (cancelled ∷ transition_decision next completed now ∷ []) in
        proceed next
          (cancel_timers result (timer_key signal.unit_id heartbeat_timeout signal.station_id ∷ []))
    | _ ↦ unexpected
  ]
