-- ===== src/Workflow/DecisionIds.antt =====
-- The identifiers that `newDecision` of internal/workflow/engine.go makes of a time and a kind.
use Prim.Native.String.append.{cons}
use text.Mathlib.TextLemmas.{append_cancel_left}
use forge_mini.Base.{
  ◌%◌, ◌^◌, ◌≡◌, refl, ap, sym, ◌∙◌, ◌↔◌, String, concat, str_eq, if◌then◌else◌, arith,
}
use forge_mini.Base.Machine.{Time, unix_nano, show_int}
use forge_mini.Base.Decimals.{value, EndsNumber, nanos_small, read_int, read_int-show_int}
use forge_mini.Workflow.State.{UnitWorkflow}
use forge_mini.Workflow.Decisions.{
  DecisionType, accept_signal, reject_signal, transition_state, schedule_timer, cancel_timer,
  start_retry, escalate, place_hold, route_to_rework, complete_incident, decision_text,
  new_decision,
}

decision_of_text : String → DecisionType
decision_of_text s =
    if str_eq s "accept_signal"
    then accept_signal
    else if str_eq s "reject_signal"
    then reject_signal
    else if str_eq s "transition_state"
    then transition_state
    else if str_eq s "schedule_timer"
    then schedule_timer
    else if str_eq s "cancel_timer"
    then cancel_timer
    else if str_eq s "start_retry"
    then start_retry
    else if str_eq s "escalate"
    then escalate
    else if str_eq s "place_hold"
    then place_hold
    else if str_eq s "route_to_rework"
    then route_to_rework
    else complete_incident

decision_of_text-decision_text : (k : DecisionType) → decision_of_text (decision_text k) ≡ k
unfolding decision_of_text decision_text
decision_of_text-decision_text accept_signal = refl
decision_of_text-decision_text reject_signal = refl
decision_of_text-decision_text transition_state = refl
decision_of_text-decision_text schedule_timer = refl
decision_of_text-decision_text cancel_timer = refl
decision_of_text-decision_text start_retry = refl
decision_of_text-decision_text escalate = refl
decision_of_text-decision_text place_hold = refl
decision_of_text-decision_text route_to_rework = refl
decision_of_text-decision_text complete_incident = refl

decision_text-injective : (k l : DecisionType) → decision_text k ≡ decision_text l → k ≡ l
decision_text-injective k l e =
    sym (decision_of_text-decision_text k)
    ∙ ap decision_of_text e
    ∙ decision_of_text-decision_text l

dash-EndsNumber : (s : String) → EndsNumber (concat "-" s)
unfolding value
dash-EndsNumber s v = ap (value v) (cons "-" "" s)

same_nanos : (t u : Time) → unix_nano t ≡ unix_nano u → t % 2 ^ 64 ≡ u % 2 ^ 64
unfolding unix_nano
same_nanos t u e = omega (arith, e)

-- The number in a text is determined by the whole, and so is what follows it from a dash on.
numbered :
    (t u : Time) (x y : String)
    → concat (show_int (unix_nano t)) (concat "-" x)
      ≡ concat (show_int (unix_nano u)) (concat "-" y)
    → (unix_nano t ≡ unix_nano u) × (x ≡ y)
numbered t u x y e =
    let same : unix_nano t ≡ unix_nano u =
      sym (read_int-show_int (unix_nano t) (concat "-" x) (nanos_small t) (dash-EndsNumber x))
      ∙ ap read_int e
      ∙ read_int-show_int (unix_nano u) (concat "-" y) (nanos_small u) (dash-EndsNumber y) in
    let e' = rw (← same) at e in
    (same, append_cancel_left "-" _ _ (append_cancel_left (show_int (unix_nano t)) _ _ e'))

-- Two decisions have the same identifier if and only if they are of the same kind and their times
-- differ by a multiple of 2 ^ 64 nanoseconds; unit, reason and trigger do not matter.
pub new_decision-ids_iff :
    (wf wf' : UnitWorkflow) (kind kind' : DecisionType)
    (reason reason' summary summary' by by' : String) (now now' : Time)
    → ((new_decision wf kind reason summary by now).id
        ≡ (new_decision wf' kind' reason' summary' by' now').id)
      ↔ ((now % 2 ^ 64 ≡ now' % 2 ^ 64) × (kind ≡ kind'))
unfolding new_decision unix_nano
new_decision-ids_iff wf wf' kind kind' reason reason' summary summary' by by' now now' = (
  (λ e.
      let (nanos, texts) = numbered now now' _ _ (append_cancel_left "dec-" _ _ e) in
      (same_nanos now now' nanos, decision_text-injective kind kind' texts)),
  λ (times, kinds). cc,
)
