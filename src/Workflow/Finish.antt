-- ===== src/Workflow/Finish.antt =====
-- From every state but the final ones of internal/workflow/types.go a unit can still be completed.
use forge_mini.Base.{◌≡◌, refl, ◌≢◌, String, List, [], ◌∷◌}
use forge_mini.Base.Errors.{ok}
use forge_mini.Base.Machine.{Int64}
use forge_mini.Signals.{
  SignalType, unit_admitted, station_entered, assembly_completed, test_started, test_passed,
  quality_disposition, rework_started, rework_completed, inspection_completed, OperationalSignal,
  QualityDispositionPayload, Codec,
}
use forge_mini.Policy.{RetryPolicy}
use forge_mini.Workflow.State.{
  State, pending, ready_for_assembly, in_assembly, ready_for_test, awaiting_test_result,
  retry_pending, on_hold, awaiting_rework, in_rework, ready_for_inspection, in_inspection,
  completed, scrapped, retry_backoff, UnitWorkflow,
}
use forge_mini.Workflow.Decisions.{TimerPayload}
use forge_mini.Workflow.Engine.{reopen, on_retry_backoff, on_timer, apply_timer}
use forge_mini.Workflow.Lifecycle.{
  Advance, admit, enter_assembly, finish_assembly, start_test, pass_test, send_to_rework,
  start_rework, finish_rework, enter_inspection, finish_inspection, failures,
}
use forge_mini.Workflow.Run.{Event, signalled, fired, step, run}
use forge_mini.Workflow.Moves.{IsNamed, signal_moves}

-- the text of a payload that decodes to the approval of a rework
pub record Approval (json : Codec) : Type 0 where
  pub text : String
  pub payload : QualityDispositionPayload
  pub decodes : json.unmarshal_quality_disposition text ≡ ok payload
  pub approves : payload.action ≡ "route_to_rework"

-- some events complete the unit
abbrev pub CanFinish : Codec → RetryPolicy → UnitWorkflow → Type 0
CanFinish json policy wf = (es : List Event) × ((run json policy wf es).0.state ≡ completed)

-- a signal, as far as the engine's guards look at it
abbrev sent : SignalType → String → String → OperationalSignal
sent type station payload = record {
  id = "";
  type = type;
  unit_id = "";
  source = "";
  station_id = station;
  correlation_id = "";
  sequence = 0;
  occurred_at = 0;
  received_at = 0;
  payload = payload;
}

-- the timer that ends a backoff
abbrev backoff_over : TimerPayload
backoff_over = record {
  key = "";
  workflow_id = "";
  unit_id = "";
  timer_type = retry_backoff;
  station_id = "test";
  fire_at = 0;
}

-- the units in a state can finish
abbrev AllFinish : Codec → RetryPolicy → State → Type 0
AllFinish json policy st =
    (wf : UnitWorkflow) → IsNamed wf → wf.state ≡ st → CanFinish json policy wf

module _ (json : Codec) (policy : RetryPolicy) where
  first_then :
      (e : Event) (wf : UnitWorkflow)
      → CanFinish json policy (step json policy wf e).0
      → CanFinish json policy wf
  unfolding run
  first_then e wf (es, h) = (e ∷ es, h)

  -- the units in a state can finish, where a signal takes them to one whose units can
  by_signal :
      (s : OperationalSignal) (st t : State)
      → ((attempts : Int64) → Advance json policy s st attempts t)
      → AllFinish json policy t
      → AllFinish json policy st
  by_signal s st t a rest wf f e =
      let (f', e') = signal_moves json policy s 0 wf t f (rw e (a (failures wf))) in
      first_then (signalled s 0) wf (rest _ f' e')

  in_inspection-AllFinish : AllFinish json policy in_inspection
  unfolding run
  in_inspection-AllFinish =
      by_signal (sent inspection_completed "" "") _ _ (λ n. finish_inspection refl refl)
        (λ wf f e. ([], e))

  ready_for_inspection-AllFinish : AllFinish json policy ready_for_inspection
  ready_for_inspection-AllFinish =
      by_signal (sent station_entered "inspection" "") _ _ (λ n. enter_inspection refl refl refl)
        in_inspection-AllFinish

  awaiting_test_result-AllFinish : AllFinish json policy awaiting_test_result
  awaiting_test_result-AllFinish =
      by_signal (sent test_passed "" "") _ _ (λ n. pass_test refl refl)
        ready_for_inspection-AllFinish

  ready_for_test-AllFinish : AllFinish json policy ready_for_test
  ready_for_test-AllFinish =
      by_signal (sent test_started "" "") _ _ (λ n. start_test refl refl)
        awaiting_test_result-AllFinish

  in_assembly-AllFinish : AllFinish json policy in_assembly
  in_assembly-AllFinish =
      by_signal (sent assembly_completed "" "") _ _ (λ n. finish_assembly refl refl)
        ready_for_test-AllFinish

  ready_for_assembly-AllFinish : AllFinish json policy ready_for_assembly
  ready_for_assembly-AllFinish =
      by_signal (sent station_entered "" "") _ _ (λ n. enter_assembly refl refl)
        in_assembly-AllFinish

  pending-AllFinish : AllFinish json policy pending
  pending-AllFinish =
      by_signal (sent unit_admitted "" "") _ _ (λ n. admit refl refl) ready_for_assembly-AllFinish

  in_rework-AllFinish : AllFinish json policy in_rework
  in_rework-AllFinish =
      by_signal (sent rework_completed "" "") _ _ (λ n. finish_rework refl refl)
        ready_for_test-AllFinish

  awaiting_rework-AllFinish : AllFinish json policy awaiting_rework
  awaiting_rework-AllFinish =
      by_signal (sent rework_started "" "") _ _ (λ n. start_rework refl refl) in_rework-AllFinish

  on_hold-AllFinish : Approval json → AllFinish json policy on_hold
  on_hold-AllFinish a =
      by_signal (sent quality_disposition "" a.text) _ _
        (λ n. send_to_rework a.payload refl refl a.decodes a.approves) awaiting_rework-AllFinish

  backoff_moves :
      (wf : UnitWorkflow)
      → wf.state ≡ retry_pending
      → ((step json policy wf (fired backoff_over 0)).0.workflow_id ≡ wf.workflow_id)
        × ((step json policy wf (fired backoff_over 0)).0.state ≡ awaiting_test_result)
  unfolding step apply_timer on_timer on_retry_backoff reopen
  backoff_moves wf e = rw (e, on_retry_backoff) (refl, refl)

  retry_pending-AllFinish : AllFinish json policy retry_pending
  retry_pending-AllFinish wf f e =
      let (named, moved) = backoff_moves wf e in
      first_then (fired backoff_over 0) wf (awaiting_test_result-AllFinish _ (rw named f) moved)

  from_state :
      Approval json → (st : State) → st ≢ completed → st ≢ scrapped → AllFinish json policy st
  from_state a pending nc ns = pending-AllFinish
  from_state a ready_for_assembly nc ns = ready_for_assembly-AllFinish
  from_state a in_assembly nc ns = in_assembly-AllFinish
  from_state a ready_for_test nc ns = ready_for_test-AllFinish
  from_state a awaiting_test_result nc ns = awaiting_test_result-AllFinish
  from_state a retry_pending nc ns = retry_pending-AllFinish
  from_state a on_hold nc ns = on_hold-AllFinish a
  from_state a awaiting_rework nc ns = awaiting_rework-AllFinish
  from_state a in_rework nc ns = in_rework-AllFinish
  from_state a ready_for_inspection nc ns = ready_for_inspection-AllFinish
  from_state a in_inspection nc ns = in_inspection-AllFinish
  from_state a completed nc ns = absurd (nc refl)
  from_state a scrapped nc ns = absurd (ns refl)

  -- Where some payload decodes to the approval of a rework, every unit that has its workflow
  -- identifier and is neither completed nor scrapped has a list of signals and timers after which it
  -- is completed.
  pub unfinished-CanFinish :
      (wf : UnitWorkflow)
      → Approval json
      → wf.workflow_id ≢ ""
      → wf.state ≢ completed
      → wf.state ≢ scrapped
      → CanFinish json policy wf
  unfinished-CanFinish wf a f nc ns = from_state a wf.state nc ns wf f refl
