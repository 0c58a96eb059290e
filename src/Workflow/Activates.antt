-- ===== src/Workflow/Activates.antt =====
-- What `Engine.ApplySignal` and `Engine.ApplyTimer` of internal/workflow/engine.go ask of the timers: those
-- that they start are active, and those that they cancel are others.
use forge_mini.Base.{
  ◌≢◌, String, ◌≡◌, refl, ◌∙◌, true, ◌||◌, List, arith, str_eq, Bool-cases, inl, inr,
}
use forge_mini.Base.Errors.{Result-cases}
use forge_mini.Base.Machine.{Time}
use forge_mini.Signals.{
  SignalType, unit_admitted, station_entered, assembly_completed, test_started, test_passed,
  test_failed, heartbeat_received, quality_disposition, rework_started, rework_completed,
  inspection_completed, operator_override, other, OperationalSignal, TestFailedPayload,
  QualityDispositionPayload, Codec,
}
use forge_mini.Policy.{RetryPolicy}
use forge_mini.Workflow.State.{
  TimerType, heartbeat_timeout, test_result_timeout, retry_backoff, manual_review_sla, UnitWorkflow,
  attempt_at,
}
use forge_mini.Workflow.Decisions.{TimerPayload, TransitionResult}
use forge_mini.Workflow.Keys.{IsOwn}
use forge_mini.Workflow.Timers.{timer_key, contains, remove_timer, add_timers}
use forge_mini.Workflow.ActiveTimers.{contains-append, contains-remove_timer}
use forge_mini.Workflow.Cases.{
  disposition, on_unit_admitted, on_station_entered, on_assembly_completed, on_heartbeat,
  on_quality_disposition, on_rework_started, on_rework_completed, on_inspection_completed,
}
use forge_mini.Workflow.TestCases.{
  test_timers, retry_branch, hold_branch, test_failure, on_test_started, on_test_failed,
  on_test_passed,
}
use forge_mini.Workflow.Engine.{
  settle, reject, dispatch, accepting, noted, apply_signal, ignore_timer, reopen, on_timeout,
  apply_timer,
}
use forge_mini.Workflow.Outcome.{On, On-map, ResultIs, apply_signal-ResultIs, apply_timer-cases}
use forge_mini.Workflow.TimerInvariant.{known_workflow_named}
use forge_mini.Workflow.Scheduling.{
  starts, NotIn, AreApart, contains-add_timers, contains-remove_timers, keys_differ,
}

-- what a case does before the timer bookkeeping
abbrev IsTidy : UnitWorkflow → UnitWorkflow → TransitionResult → Type 0
IsTidy next n r =
    (n.active_timer_keys ≡ next.active_timer_keys) × AreApart r.timers_to_cancel r.timers_to_start

module _ (json : Codec) (policy : RetryPolicy) (s : OperationalSignal) (now : Time)
    (k : UnitWorkflow) where
  test_failure-IsTidy :
      (next : UnitWorkflow) (p : TestFailedPayload)
      → On (IsTidy next) (test_failure (accepting k s now) s now policy next p)
  unfolding test_failure retry_branch hold_branch accepting test_timers
  test_failure-IsTidy next p =
      let differ = λ (a b : TimerType) (ha : IsOwn a) (hb : IsOwn b) (ne : a ≡ b → ⊥).
        keys_differ s.unit_id a b "test" "test" ha hb ne in
      elim (Bool-cases
        (policy.evaluate p.failure_class
          (attempt_at "test" next.attempt_count_by_station)).retry_authorized) [
            | inl q ↦ rw q (
              refl,
              (
                (differ retry_backoff test_result_timeout tt tt (λ e. cc), tt),
                ((differ retry_backoff heartbeat_timeout tt tt (λ e. cc), tt), tt),
              ),
            )
            | inr q ↦ rw q (
              refl,
              (
                (differ manual_review_sla test_result_timeout tt tt (λ e. cc), tt),
                ((differ manual_review_sla heartbeat_timeout tt tt (λ e. cc), tt), tt),
              ),
            )
          ]

  disposition-IsTidy :
      (next : UnitWorkflow) (p : QualityDispositionPayload)
      → On (IsTidy next) (disposition (accepting k s now) s now next p)
  unfolding disposition accepting
  disposition-IsTidy next p = elim (Bool-cases (str_eq p.action "route_to_rework")) [
    | inl q ↦ rw q (refl, tt)
    | inr q ↦
        rw q (elim (Bool-cases (str_eq p.action "scrap")) [
          | inl x ↦ rw x (refl, tt)
          | inr x ↦ rw x tt
        ])
  ]

  dispatch-IsTidy :
      (ty : SignalType) (next : UnitWorkflow)
      → On (IsTidy next) (dispatch json policy ty (accepting k s now) s now next)
  unfolding dispatch accepting on_unit_admitted on_station_entered on_assembly_completed
      on_test_started on_test_failed on_test_passed on_heartbeat on_quality_disposition
      on_rework_started on_rework_completed on_inspection_completed test_timers
  dispatch-IsTidy unit_admitted next = ground arith
  dispatch-IsTidy station_entered next = ground arith
  dispatch-IsTidy assembly_completed next = ground arith
  dispatch-IsTidy test_started next = ground arith
  dispatch-IsTidy test_passed next = ground arith
  dispatch-IsTidy test_failed next = elim (Result-cases (json.unmarshal_test_failed s.payload)) [
    | inl (p, d) ↦ ground (arith, test_failure-IsTidy next p)
    | inr (x, d) ↦ ground arith
  ]
  dispatch-IsTidy heartbeat_received next = ground arith
  dispatch-IsTidy quality_disposition next =
      elim (Result-cases (json.unmarshal_quality_disposition s.payload)) [
        | inl (p, d) ↦ ground (arith, disposition-IsTidy next p)
        | inr (x, d) ↦ ground arith
      ]
  dispatch-IsTidy rework_started next = ground arith
  dispatch-IsTidy rework_completed next = ground arith
  dispatch-IsTidy inspection_completed next = ground arith
  dispatch-IsTidy operator_override next = tt
  dispatch-IsTidy (other x) next = tt

-- The keys that are active before and not cancelled, and those of the timers to start, are active in
-- the snapshot of an answer.
abbrev pub Activates : List String → TransitionResult → Type 0
Activates keys r =
    AreApart r.timers_to_cancel r.timers_to_start
    × ((key : String)
        → contains keys key || starts r.timers_to_start key ≡ true
        → NotIn key r.timers_to_cancel
        → contains r.next_workflow.active_timer_keys key ≡ true)

settle-Activates :
    (next n : UnitWorkflow) (now : Time) (r : TransitionResult)
    → IsTidy next n r
    → Activates next.active_timer_keys (record r { next_workflow = settle now n r })
unfolding settle
settle-Activates next n now r (keys, apart) = (
  apart,
  λ key live kept.
      contains-remove_timers r.timers_to_cancel (add_timers n.active_timer_keys r.timers_to_start)
        key kept (contains-add_timers r.timers_to_start n.active_timer_keys key ∙ rw keys live),
)

pub apply_signal-Activates :
    (json : Codec) (policy : RetryPolicy) (wf : UnitWorkflow) (s : OperationalSignal) (now : Time)
    → wf.workflow_id ≢ ""
    → ResultIs (Activates wf.active_timer_keys) (apply_signal json policy wf s now)
unfolding noted reject starts
apply_signal-Activates json policy wf s now named =
    let known = known_workflow_named wf s now named in
    apply_signal-ResultIs (λ k. k ≡ wf) (Activates wf.active_timer_keys) json policy s now
      (λ k e. rw e known) (λ k reason e. rw (e, known) (tt, λ key live kept. ground arith))
      (λ k e. rw e (
        On-map _ _ (dispatch json policy s.type (accepting wf s now) s now (noted wf s now))
          (λ n r tidy. settle-Activates (noted wf s now) n now r tidy)
          (dispatch-IsTidy json policy s now wf s.type (noted wf s now))))
      wf refl

-- The same of a timer, whose own key counts as not active before.
pub apply_timer-Activates :
    (wf : UnitWorkflow) (p : TimerPayload) (now : Time)
    → Activates (remove_timer wf.active_timer_keys p.key) (apply_timer wf p now)
unfolding ignore_timer reopen on_timeout starts timer_key
apply_timer-Activates wf p now =
    let keys = remove_timer wf.active_timer_keys p.key in
    apply_timer-cases (Activates keys) wf p now
      (λ reason summary.
        (tt, λ key live kept. ground (arith, contains-remove_timer wf.active_timer_keys p.key key)))
      (λ e st. (tt, λ key live kept. contains-append keys _ key ∙ ground (arith, live)))
      (λ e. (tt, λ key live kept. ground (arith, live)))
