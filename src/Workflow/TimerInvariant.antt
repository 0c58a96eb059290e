-- ===== src/Workflow/TimerInvariant.antt =====
-- `Engine.ApplySignal` and `Engine.ApplyTimer` of internal/workflow/engine.go keep the active timer
-- keys of a unit in order, under a policy that tries a test again only after its first failure.
use forge_mini.Base.{
  ◌*◌, ◌==◌, ap, ◌∙◌, ℕ, suc, ◌<◌, ◌≤◌, ◌^◌, String, ◌≡◌, ◌≢◌, [], ◌∷◌, arith, eq_iff, true,
  Bool-cases, inl, inr,
}
use forge_mini.Base.Dict.{Dict, insert, lookup-insert}
use forge_mini.Base.Errors.{Result-cases}
use forge_mini.Base.Machine.{Int64, Time, int_add, add, minute}
use forge_mini.Signals.{OperationalSignal, TestFailedPayload, Codec}
use forge_mini.Policy.{RetryPolicy}
use forge_mini.Workflow.State.{
  awaiting_test_result, on_hold, retry_backoff, manual_review_sla, UnitWorkflow, attempt_at,
}
use forge_mini.Workflow.Decisions.{TimerPayload, TransitionResult}
use forge_mini.Workflow.Branch.{timer_request}
use forge_mini.Workflow.TestCases.{
  test_timers, retry_branch, hold_branch, test_failure, on_test_failed,
}
use forge_mini.Workflow.Engine.{
  known_workflow, settle, dispatch, accepting, noted, apply_signal, ignore_timer, reopen,
  on_timeout, apply_timer,
}
use forge_mini.Workflow.PlainCases.{RetriesOnce, Plain, dispatch-Plain, is_test_failed}
use forge_mini.Workflow.Outcome.{On, On-map, NextIs, apply_signal-NextIs, apply_timer-cases}
use forge_mini.Workflow.TimerFit.{
  IsGood-other, TimersFit, TimersFit-settled, TimersFit-retry, TimersFit-failed, TimersFit-reopen,
  TimersFit-timeout,
}
use forge_mini.Workflow.Lifecycle.{failures}

-- The unit after at most `n` events.
pub record UnitFits (unit : String) (n : ℕ) (wf : UnitWorkflow) : Type 0 where
  pub own : wf.unit_id ≡ unit
  pub named : wf.workflow_id ≢ ""
  pub counted : failures wf ≤ n
  pub timers : TimersFit unit wf.state (failures wf) wf.active_timer_keys

-- A case that is plain keeps the keys in order.
Plain-fits :
    (n : ℕ) (s : OperationalSignal) (now : Time) (next m : UnitWorkflow) (r : TransitionResult)
    → UnitFits s.unit_id n next
    → Plain s next m r
    → UnitFits s.unit_id (suc n) (settle now m r)
unfolding settle
Plain-fits n s now next m r f (own, named, keys, counts, state, good) =
    let same : failures m ≡ failures next = ap (attempt_at "test") counts in
    record {
      own = own ∙ f.own;
      named = rw named f.named;
      counted = rw same (omega (arith, f.counted));
      timers =
          rw (same, keys)
            (TimersFit-settled s.unit_id next.state m.state (failures next) next.active_timer_keys
              r.timers_to_start r.timers_to_cancel state good f.timers);
    }

pub failures-insert : (n : Int64) (m : Dict Int64) → attempt_at "test" (insert "test" n m) ≡ n
unfolding attempt_at
failures-insert n m = rw (lookup-insert "test" "test" n m, attempt_at)

pub int_add_one : (a n : Int64) → a ≤ n → suc n < 2 ^ 63 → int_add a 1 ≡ suc a
unfolding int_add
int_add_one a n h k = omega arith

pub retried_first :
    (policy : RetryPolicy) (c : String) (a : Int64)
    → RetriesOnce policy
    → a < 2 ^ 63
    → (policy.evaluate c a).retry_authorized ≡ true
    → a ≡ 0
retried_first policy c a once small q = elim (Bool-cases (a == 0)) [
  | inl z ↦ ground arith
  | inr p ↦ ground (arith, once c a)
]

module _ (json : Codec) (policy : RetryPolicy) (s : OperationalSignal) (now : Time) (n : ℕ) where
  test_failure-Fits :
      (wf next : UnitWorkflow) (p : TestFailedPayload)
      → RetriesOnce policy
      → suc n < 2 ^ 63
      → UnitFits s.unit_id n next
      → On
          (λ m r. UnitFits s.unit_id (suc n) (settle now m r))
          (test_failure (accepting wf s now) s now policy next p)
  unfolding test_failure retry_branch hold_branch accepting settle test_timers
  test_failure-Fits wf next p once small f =
      let a = failures next in
      let keys = next.active_timer_keys in
      let verdict = policy.evaluate p.failure_class a in
      let backoff = timer_request s.unit_id retry_backoff "test" (add now verdict.backoff) in
      let sla = timer_request s.unit_id manual_review_sla "test" (add now (15 * minute)) in
      let counts = insert "test" (int_add a 1) next.attempt_count_by_station in
      let count : attempt_at "test" counts ≡ suc a =
        failures-insert (int_add a 1) next.attempt_count_by_station
        ∙ int_add_one a n f.counted small in
      elim (Bool-cases verdict.retry_authorized) [
        | inl q ↦
            let first = retried_first policy p.failure_class a once (omega (arith, f.counted)) q in
            rw q (record {
              own = f.own;
              named = f.named;
              counted = rw count (omega (arith, f.counted));
              timers = rw count (
                  TimersFit-retry s.unit_id next.state (suc a) keys (backoff ∷ [])
                    (IsGood-other s.unit_id retry_backoff "test" tt (λ e. cc), tt)
                    (λ e. omega arith) (rw first at f.timers));
            })
        | inr q ↦ rw q (record {
          own = f.own;
          named = f.named;
          counted = rw count (omega (arith, f.counted));
          timers = rw count (
              TimersFit-failed s.unit_id next.state on_hold a (suc a) keys (sla ∷ [])
                (test_timers (accepting wf s now) s now) (λ e. cc) (λ e. omega arith) f.timers);
        })
      ]

  dispatch-Fits :
      (wf next : UnitWorkflow)
      → RetriesOnce policy
      → suc n < 2 ^ 63
      → UnitFits s.unit_id n next
      → On
          (λ m r. UnitFits s.unit_id (suc n) (settle now m r))
          (dispatch json policy s.type (accepting wf s now) s now next)
  unfolding dispatch on_test_failed
  dispatch-Fits wf next once small f = elim (is_test_failed s.type) [
    | inl e ↦
        rw (e, dispatch)
          (elim (Result-cases (json.unmarshal_test_failed s.payload)) [
            | inl (p, d) ↦ ground (arith, test_failure-Fits wf next p once small f)
            | inr (x, d) ↦ ground arith
          ])
    | inr ne ↦
        On-map (Plain s next) (λ m r. UnitFits s.unit_id (suc n) (settle now m r)) _
          (λ m r plain. Plain-fits n s now next m r f plain)
          (dispatch-Plain json policy s now s.type wf next ne)
  ]

pub known_workflow_named :
    (wf : UnitWorkflow) (s : OperationalSignal) (now : Time)
    → wf.workflow_id ≢ ""
    → known_workflow wf s now ≡ wf
unfolding known_workflow
known_workflow_named wf s now h = ground (arith, eq_iff wf.workflow_id "")

-- A signal of the unit keeps its timer keys in order.
pub apply_signal-UnitFits :
    (json : Codec) (policy : RetryPolicy) (s : OperationalSignal) (now : Time) (n : ℕ)
    (wf : UnitWorkflow)
    → RetriesOnce policy
    → suc n < 2 ^ 63
    → UnitFits s.unit_id n wf
    → NextIs (UnitFits s.unit_id (suc n)) (apply_signal json policy wf s now)
unfolding noted
apply_signal-UnitFits json policy s now n wf once small =
    apply_signal-NextIs (UnitFits s.unit_id n) (UnitFits s.unit_id (suc n)) json policy s now
      (λ k f. rw (known_workflow_named k s now f.named) f)
      (λ k f. record {
        own = f.own;
        named = f.named;
        counted = omega (arith, f.counted);
        timers = f.timers;
      })
      (λ k f.
        dispatch-Fits json policy s now n k (noted k s now) once small
          (record { own = f.own; named = f.named; counted = f.counted; timers = f.timers }))
      wf

-- A timer, whichever it is, keeps the timer keys of the unit in order.
pub apply_timer-UnitFits :
    (unit : String) (n : ℕ) (wf : UnitWorkflow) (p : TimerPayload) (now : Time)
    → UnitFits unit n wf
    → UnitFits unit (suc n) (apply_timer wf p now).next_workflow
unfolding ignore_timer reopen on_timeout
apply_timer-UnitFits unit n wf p now f =
    apply_timer-cases (λ r. UnitFits unit (suc n) r.next_workflow) wf p now
      (λ reason summary. record {
        own = f.own;
        named = f.named;
        counted = omega (arith, f.counted);
        timers = f.timers;
      })
      (λ e waiting. record {
        own = f.own;
        named = f.named;
        counted = omega (arith, f.counted);
        timers = rw f.own (
            TimersFit-reopen unit awaiting_test_result (failures wf) wf.active_timer_keys p.key
              p.station_id (λ q. cc) (rw waiting at f.timers));
      })
      (λ h. record {
        own = f.own;
        named = f.named;
        counted = omega (arith, f.counted);
        timers =
            TimersFit-timeout unit wf.state on_hold (failures wf) wf.active_timer_keys p.key
              (λ q. cc) f.timers;
      })
