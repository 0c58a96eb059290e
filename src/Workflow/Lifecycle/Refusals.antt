-- ===== src/Workflow/Lifecycle/Refusals.antt =====
-- The signals that `Engine.ApplySignal` of internal/workflow/engine.go refuses or cannot read.
use mathlib.Core.Path.{subst}
use forge_mini.Base.{
  ap, ℕ, String, ◌≡◌, refl, ◌≢◌, ◌⊎◌, ◌↔◌, inl, inr, false, [], ◌∷◌, str_eq, eq_iff, arith,
  Bool-cases,
}
use forge_mini.Base.Errors.{Error, Result, ok, err}
use forge_mini.Base.Machine.{Time}
use forge_mini.Signals.{OperationalSignal, signal_text, Codec}
use forge_mini.Policy.{RetryPolicy}
use forge_mini.Workflow.State.{State, completed, scrapped, UnitWorkflow, new}
use forge_mini.Workflow.Decisions.{reject_signal, new_decision, no_action, TransitionResult}
use forge_mini.Workflow.Branch.{fail_with}
use forge_mini.Workflow.Cases.{on_quality_disposition}
use forge_mini.Workflow.TestCases.{on_test_failed}
use forge_mini.Workflow.Engine.{
  known_workflow, dispatch, conclude, accepting, noted, reject, apply_signal,
}
use forge_mini.Workflow.Keys.{prefix-ne-nil}
use forge_mini.Workflow.Lifecycle.{
  accepts, Advance, admit, enter_assembly, finish_assembly, start_test, pass_test, retry_test,
  hold_after_test, beat, send_to_rework, scrap, start_rework, finish_rework, enter_inspection,
  finish_inspection, Undecodable, bad_failure, bad_disposition,
}
use forge_mini.Workflow.Lifecycle.Sound.{Answers, apply_signal-Answers}

known_workflow-named :
    (wf : UnitWorkflow) (s : OperationalSignal) (now : Time)
    → (known_workflow wf s now).workflow_id ≢ ""
unfolding known_workflow new
known_workflow-named wf s now = elim (Bool-cases (str_eq wf.workflow_id "")) [
  | inl q ↦ rw q (prefix-ne-nil s.unit_id)
  | inr q ↦ rw q (λ e. ground (arith, eq_iff wf.workflow_id ""))
]

pub known_workflow_same :
    (wf : UnitWorkflow) (s : OperationalSignal) (now : Time)
    → wf.workflow_id ≢ ""
    → known_workflow wf s now ≡ wf
unfolding known_workflow
known_workflow_same wf s now h = ground (arith, eq_iff wf.workflow_id "")

-- What a refusal leaves behind.
pub record IsRefusal (wf : UnitWorkflow) (s : OperationalSignal) (now : Time) (r : TransitionResult)
    : Type 0 where
  pub same : r.next_workflow ≡ wf
  pub idle : r.incident_action ≡ no_action
  pub none_started : r.timers_to_start ≡ []
  pub none_cancelled : r.timers_to_cancel ≡ []
  pub noted_only :
      (reason : String) × (r.decisions
        ≡ new_decision wf reject_signal reason (signal_text s.type) s.source now ∷ [])

reject-IsRefusal :
    (wf : UnitWorkflow) (s : OperationalSignal) (now : Time) (reason : String)
    → wf.workflow_id ≢ ""
    → IsRefusal wf s now (reject wf s now reason)
unfolding reject
reject-IsRefusal wf s now reason named = rw (known_workflow_same wf s now named) (record {
  same = refl;
  idle = refl;
  none_started = refl;
  none_cancelled = refl;
  noted_only = (reason, refl);
})

no_exit :
    {json : Codec} {policy : RetryPolicy} {s : OperationalSignal} {from t : State} {n : ℕ}
    → (from ≡ completed) ⊎ (from ≡ scrapped)
    → Advance json policy s from n t
    → ⊥
no_exit h (admit e q) = ground arith
no_exit h (enter_assembly e q) = ground arith
no_exit h (finish_assembly e q) = ground arith
no_exit h (start_test e q) = ground arith
no_exit h (pass_test e q) = ground arith
no_exit h (retry_test p e q d v) = ground arith
no_exit h (hold_after_test p e q d v) = ground arith
no_exit h (beat e q) = ground arith
no_exit h (send_to_rework p e q d v) = ground arith
no_exit h (scrap p e q d v) = ground arith
no_exit h (start_rework e q) = ground arith
no_exit h (finish_rework e q) = ground arith
no_exit h (enter_inspection e q v) = ground arith
no_exit h (finish_inspection e q) = ground arith

no_error :
    {json : Codec} {s : OperationalSignal} {from : State} {e : Error}
    → (from ≡ completed) ⊎ (from ≡ scrapped)
    → Undecodable json s from e
    → ⊥
no_error h (bad_failure t q d) = ground arith
no_error h (bad_disposition t q d) = ground arith

-- the engine answers, and the answer has a property
abbrev pub AnsweredWith : (TransitionResult → Type 0) → Result TransitionResult → Type 0
AnsweredWith P (ok r) = P r
AnsweredWith P (err e) = ⊥

module _ (json : Codec) (policy : RetryPolicy) (s : OperationalSignal) where
  -- Where the engine answers a signal and the first decision does not accept it, the answer is one
  -- decision that rejects the signal; the snapshot is the one that the signal was applied to, no timer
  -- is started or cancelled, and nothing is asked of the incidents.
  pub apply_signal-IsRefusal :
      (wf : UnitWorkflow) (now : Time) (r : TransitionResult)
      → apply_signal json policy wf s now ≡ ok r
      → accepts r.decisions ≡ false
      → IsRefusal (known_workflow wf s now) s now r
  apply_signal-IsRefusal wf now r e h =
      let k = known_workflow wf s now in
      elim (subst (Answers json policy s k now) e (apply_signal-Answers json policy s wf now)) [
        | inl (a, b) ↦ cc
        | inr (reason, q) ↦ rw q (reject-IsRefusal k s now reason (known_workflow-named wf s now))
      ]

  finished_answer :
      (wf : UnitWorkflow) (now : Time) (r : Result TransitionResult)
      → (wf.state ≡ completed) ⊎ (wf.state ≡ scrapped)
      → wf.workflow_id ≢ ""
      → Answers json policy s wf now r
      → AnsweredWith (IsRefusal wf s now) r
  finished_answer wf now (ok r) h named (inl (a, b)) = absurd (no_exit h b)
  finished_answer wf now (ok r) h named (inr (reason, q)) =
      rw q (reject-IsRefusal wf s now reason named)
  finished_answer wf now (err e) h named a = no_error h a

  -- A unit that is completed or scrapped, and has its workflow identifier, refuses every signal: the
  -- engine returns no error, the snapshot is unchanged, and the one decision rejects the signal.
  pub finished_refuses :
      (wf : UnitWorkflow) (now : Time)
      → (wf.state ≡ completed) ⊎ (wf.state ≡ scrapped)
      → wf.workflow_id ≢ ""
      → AnsweredWith (IsRefusal wf s now) (apply_signal json policy wf s now)
  finished_refuses wf now h named =
      finished_answer wf now _ h named
        (rw (known_workflow_same wf s now named) at (apply_signal-Answers json policy s wf now))

  dispatch-fail_with :
      (r : TransitionResult) (now : Time) (next : UnitWorkflow) (e : Error)
      → Undecodable json s next.state e
      → dispatch json policy s.type r s now next ≡ fail_with e
  unfolding dispatch on_test_failed on_quality_disposition
  dispatch-fail_with r now next e (bad_failure t q d) = simp t (ground arith)
  dispatch-fail_with r now next e (bad_disposition t q d) = simp t (ground arith)

  Undecodable-answer :
      (wf : UnitWorkflow) (now : Time) (e : Error)
      → Undecodable json s (known_workflow wf s now).state e
      → apply_signal json policy wf s now ≡ err e
  unfolding apply_signal conclude
  Undecodable-answer wf now e u =
      let k = known_workflow wf s now in
      ap (conclude k s now) (dispatch-fail_with (accepting k s now) now (noted k s now) e u)

  -- `ApplySignal` returns the error `e` if and only if the signal is a test failure for a unit that
  -- awaits its test result, or a quality disposition for a unit on hold, and its payload does not
  -- decode, with `e` the decoder's error wrapped for that payload.
  pub apply_signal-err_iff :
      (wf : UnitWorkflow) (now : Time) (e : Error)
      → (apply_signal json policy wf s now ≡ err e)
        ↔ Undecodable json s (known_workflow wf s now).state e
  apply_signal-err_iff wf now e = (
    λ q.
        subst (Answers json policy s (known_workflow wf s now) now) q
          (apply_signal-Answers json policy s wf now),
    Undecodable-answer wf now e,
  )
