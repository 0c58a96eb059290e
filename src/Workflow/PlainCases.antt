-- ===== src/Workflow/PlainCases.antt =====
-- The cases of `Engine.ApplySignal` in internal/workflow/engine.go that do not count a failed test.
use forge_mini.Base.{
  ◌⊎◌, ◌<◌, ◌^◌, String, ◌≡◌, refl, ◌≢◌, arith, str_eq, false, Bool-cases, inl, inr,
}
use forge_mini.Base.Errors.{Result-cases}
use forge_mini.Base.Machine.{Int64, Time}
use forge_mini.Signals.{
  SignalType, unit_admitted, station_entered, assembly_completed, test_started, test_passed,
  test_failed, heartbeat_received, quality_disposition, rework_started, rework_completed,
  inspection_completed, operator_override, other, OperationalSignal, QualityDispositionPayload,
  Codec,
}
use forge_mini.Policy.{RetryPolicy}
use forge_mini.Workflow.State.{retry_pending, heartbeat_timeout, UnitWorkflow}
use forge_mini.Workflow.Decisions.{TransitionResult}
use forge_mini.Workflow.Branch.{heartbeat_request}
use forge_mini.Workflow.Cases.{
  disposition, on_unit_admitted, on_station_entered, on_assembly_completed, on_heartbeat,
  on_quality_disposition, on_rework_started, on_rework_completed, on_inspection_completed,
}
use forge_mini.Workflow.TestCases.{on_test_started, on_test_passed}
use forge_mini.Workflow.Engine.{dispatch, accepting}
use forge_mini.Workflow.Outcome.{On}
use forge_mini.Workflow.TimerFit.{IsGood, IsGood-other, IsGood-test, AreGood}

-- a policy that authorises no retry once a test has failed
abbrev pub RetriesOnce : RetryPolicy → Type 0
RetriesOnce policy =
    (c : String) (n : Int64) → n ≢ 0 → n < 2 ^ 63 → (policy.evaluate c n).retry_authorized ≡ false

-- What every case but a failed test does: it keeps the keys and the count, leads to no retry, and
-- starts good timers only.
abbrev pub Plain : OperationalSignal → UnitWorkflow → UnitWorkflow → TransitionResult → Type 0
Plain s next n r =
    (n.unit_id ≡ next.unit_id)
    × (n.workflow_id ≡ next.workflow_id)
    × (n.active_timer_keys ≡ next.active_timer_keys)
    × (n.attempt_count_by_station ≡ next.attempt_count_by_station)
    × (n.state ≢ retry_pending)
    × AreGood s.unit_id r.timers_to_start

module _ (json : Codec) (policy : RetryPolicy) (s : OperationalSignal) (now : Time) where
  pub heartbeat-IsGood : (station : String) → IsGood s.unit_id (heartbeat_request s now station).key
  unfolding heartbeat_request
  heartbeat-IsGood station = IsGood-other s.unit_id heartbeat_timeout station tt (λ e. cc)

  pub disposition-Plain :
      (wf next : UnitWorkflow) (p : QualityDispositionPayload)
      → On (Plain s next) (disposition (accepting wf s now) s now next p)
  unfolding disposition accepting
  disposition-Plain wf next p = elim (Bool-cases (str_eq p.action "route_to_rework")) [
    | inl q ↦ rw q (ground arith)
    | inr q ↦ rw q (elim (Bool-cases (str_eq p.action "scrap")) [
      | inl x ↦ rw x (ground arith)
      | inr x ↦ rw x tt
    ])
  ]

  pub dispatch-Plain :
      (ty : SignalType) (wf next : UnitWorkflow)
      → ty ≢ test_failed
      → On (Plain s next) (dispatch json policy ty (accepting wf s now) s now next)
  unfolding dispatch accepting on_unit_admitted on_station_entered on_assembly_completed
      on_test_started on_test_passed on_heartbeat on_quality_disposition on_rework_started
      on_rework_completed on_inspection_completed
  dispatch-Plain unit_admitted wf next ne = ground arith
  dispatch-Plain station_entered wf next ne = ground (arith, heartbeat-IsGood s.station_id)
  dispatch-Plain assembly_completed wf next ne = ground arith
  dispatch-Plain test_started wf next ne =
      ground (arith, heartbeat-IsGood "test", IsGood-test s.unit_id)
  dispatch-Plain test_passed wf next ne = ground arith
  dispatch-Plain test_failed wf next ne = absurd (ne refl)
  dispatch-Plain heartbeat_received wf next ne = ground (arith, heartbeat-IsGood s.station_id)
  dispatch-Plain quality_disposition wf next ne =
      elim (Result-cases (json.unmarshal_quality_disposition s.payload)) [
        | inl (p, d) ↦ ground (arith, disposition-Plain wf next p)
        | inr (x, d) ↦ ground arith
      ]
  dispatch-Plain rework_started wf next ne = ground arith
  dispatch-Plain rework_completed wf next ne = ground arith
  dispatch-Plain inspection_completed wf next ne = ground arith
  dispatch-Plain operator_override wf next ne = tt
  dispatch-Plain (other x) wf next ne = tt

pub is_test_failed : (ty : SignalType) → (ty ≡ test_failed) ⊎ (ty ≢ test_failed)
is_test_failed test_failed = inl refl
is_test_failed _ = inr (λ e. cc)
