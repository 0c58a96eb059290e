-- ===== src/Workflow/Outcome.antt =====
-- Rules by which a property of a snapshot is carried through `Engine.ApplySignal` of
-- internal/workflow/engine.go.
use forge_mini.Base.{String, ◌≡◌, refl, ◌⊎◌, inl, inr}
use forge_mini.Base.Errors.{Result, ok, err}
use forge_mini.Base.Machine.{Time}
use forge_mini.Signals.{OperationalSignal, Codec}
use forge_mini.Policy.{RetryPolicy}
use forge_mini.Workflow.State.{
  State, retry_pending, TimerType, retry_backoff, heartbeat_timeout, test_result_timeout,
  UnitWorkflow,
}
use forge_mini.Workflow.Decisions.{TimerPayload, TransitionResult}
use forge_mini.Workflow.Branch.{Branch, reject_with, fail_with, proceed}
use forge_mini.Workflow.Engine.{
  known_workflow, settle, reject, conclude, dispatch, accepting, noted, apply_signal, ignore_timer,
  reopen, on_retry_backoff, on_timer, on_timeout, apply_timer,
}

-- what holds of a case that goes on
abbrev pub On : (UnitWorkflow → TransitionResult → Type 0) → Branch → Type 0
On P (reject_with reason) = Unit
On P (fail_with e) = Unit
On P (proceed n r) = P n r

-- what holds of the engine's answer, and of the snapshot in it
abbrev pub ResultIs : (TransitionResult → Type 0) → Result TransitionResult → Type 0
ResultIs Q (ok r) = Q r
ResultIs Q (err e) = Unit

abbrev pub NextIs : (UnitWorkflow → Type 0) → Result TransitionResult → Type 0
NextIs P = ResultIs (λ r. P r.next_workflow)

conclude-ResultIs :
    (Q : TransitionResult → Type 0) (wf : UnitWorkflow) (s : OperationalSignal) (now : Time)
    (b : Branch)
    → ((reason : String) → Q (reject wf s now reason))
    → On (λ n r. Q (record r { next_workflow = settle now n r })) b
    → ResultIs Q (conclude wf s now b)
unfolding conclude
conclude-ResultIs Q wf s now (reject_with reason) k h = k reason
conclude-ResultIs Q wf s now (fail_with e) k h = tt
conclude-ResultIs Q wf s now (proceed n r) k h = h

-- `P` holds of the snapshot before the signal and `Q` of the answer.
pub apply_signal-ResultIs :
    (P : UnitWorkflow → Type 0) (Q : TransitionResult → Type 0) (json : Codec)
    (policy : RetryPolicy) (s : OperationalSignal) (now : Time)
    → ((wf : UnitWorkflow) → P wf → P (known_workflow wf s now))
    → ((wf : UnitWorkflow) (reason : String) → P wf → Q (reject wf s now reason))
    → ((wf : UnitWorkflow)
        → P wf
        → On
            (λ n r. Q (record r { next_workflow = settle now n r }))
            (dispatch json policy s.type (accepting wf s now) s now (noted wf s now)))
    → (wf : UnitWorkflow) → P wf
    → ResultIs Q (apply_signal json policy wf s now)
unfolding apply_signal
apply_signal-ResultIs P Q json policy s now known refused cases wf h =
    let k = known_workflow wf s now in
    let hk = known wf h in
    conclude-ResultIs Q k s now
      (dispatch json policy s.type (accepting k s now) s now (noted k s now))
      (λ reason. refused k reason hk) (cases k hk)

-- The same, where only the snapshots are spoken of.
pub apply_signal-NextIs :
    (P Q : UnitWorkflow → Type 0) (json : Codec) (policy : RetryPolicy) (s : OperationalSignal)
    (now : Time)
    → ((wf : UnitWorkflow) → P wf → P (known_workflow wf s now))
    → ((wf : UnitWorkflow) → P wf → Q wf)
    → ((wf : UnitWorkflow)
        → P wf
        → On
            (λ n r. Q (settle now n r))
            (dispatch json policy s.type (accepting wf s now) s now (noted wf s now)))
    → (wf : UnitWorkflow) → P wf
    → NextIs Q (apply_signal json policy wf s now)
unfolding reject
apply_signal-NextIs P Q json policy s now known keep cases =
    apply_signal-ResultIs P (λ r. Q r.next_workflow) json policy s now known
      (λ wf reason h. keep _ (known wf h)) cases

-- A timer is ignored, reopens a test that waits for its retry, or holds the unit.
module _ (P : TransitionResult → Type 0) (wf : UnitWorkflow) (p : TimerPayload) (now : Time) where
  on_retry_backoff-cases :
      (st : State)
      → ((reason summary : String) → P (ignore_timer wf reason summary now))
      → (st ≡ retry_pending → P (reopen wf p now))
      → P (on_retry_backoff st wf p now)
  unfolding on_retry_backoff
  on_retry_backoff-cases retry_pending ignored reopened = reopened refl
  on_retry_backoff-cases _ ignored reopened = ignored _ _

  on_timer-cases :
      (ty : TimerType)
      → ((reason summary : String) → P (ignore_timer wf reason summary now))
      → (ty ≡ retry_backoff → wf.state ≡ retry_pending → P (reopen wf p now))
      → ((ty ≡ heartbeat_timeout) ⊎ (ty ≡ test_result_timeout) → P (on_timeout wf p now))
      → P (on_timer ty wf p now)
  unfolding on_timer
  on_timer-cases retry_backoff ignored reopened held =
      on_retry_backoff-cases wf.state ignored (reopened refl)
  on_timer-cases heartbeat_timeout ignored reopened held = held (inl refl)
  on_timer-cases test_result_timeout ignored reopened held = held (inr refl)
  on_timer-cases _ ignored reopened held = ignored _ _

  pub apply_timer-cases :
      ((reason summary : String) → P (ignore_timer wf reason summary now))
      → (p.timer_type ≡ retry_backoff → wf.state ≡ retry_pending → P (reopen wf p now))
      → ((p.timer_type ≡ heartbeat_timeout) ⊎ (p.timer_type ≡ test_result_timeout)
          → P (on_timeout wf p now))
      → P (apply_timer wf p now)
  unfolding apply_timer
  apply_timer-cases = on_timer-cases p.timer_type

pub On-map :
    (P Q : UnitWorkflow → TransitionResult → Type 0) (b : Branch)
    → ((n : UnitWorkflow) (r : TransitionResult) → P n r → Q n r)
    → On P b
    → On Q b
On-map P Q (reject_with reason) f h = tt
On-map P Q (fail_with e) f h = tt
On-map P Q (proceed n r) f h = f n r h
