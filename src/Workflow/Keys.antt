-- ===== src/Workflow/Keys.antt =====
-- Timer keys of internal/workflow/engine.go: when two of them are the same text.
use Prim.Native.Char.{Char, code}
use Prim.Native.String.append.{nil, cons}
use text.Mathlib.TextLemmas.{
  append_cancel_left, head-eq_of_cons-eq, tail-eq_of_cons-eq, cons-ne-nil,
}
use mathlib.Core.Path.{ap₂}
use forge_mini.Base.{ℕ, ◌≡◌, refl, ◌≢◌, ap, sym, ◌∙◌, String, concat, arith}
use forge_mini.Workflow.State.{
  TimerType, test_result_timeout, heartbeat_timeout, retry_backoff, manual_review_sla, other_timer,
  timer_text,
}
use forge_mini.Workflow.Timers.{timer_key}

-- the first character of a text, as a number
abbrev initial : String → ℕ
initial String.[] = 0
initial (String.◌∷◌ c s) = code c

initial-concat : (c : Char) (s t : String) → initial (concat (String.◌∷◌ c s) t) ≡ code c
initial-concat c s t = ap initial (cons c s t)

-- the types of the timers that the program starts
abbrev pub IsOwn : TimerType → Type 0
IsOwn (other_timer s) = ⊥
IsOwn _ = Unit

-- Their texts differ in the first letter.
letter :
    (a : TimerType) (x : String)
    → IsOwn a
    → initial (concat (timer_text a) x) ≡ initial (timer_text a)
unfolding timer_text
letter test_result_timeout x h = initial-concat "t" "est_result_timeout" x
letter heartbeat_timeout x h = initial-concat "s" "tation_heartbeat_timeout" x
letter retry_backoff x h = initial-concat "r" "etry_backoff_timer" x
letter manual_review_sla x h = initial-concat "m" "anual_review_sla_timer" x
letter (other_timer s) x h = absurd h

letter_injective :
    (a b : TimerType) → IsOwn a → IsOwn b → initial (timer_text a) ≡ initial (timer_text b) → a ≡ b
unfolding timer_text
letter_injective test_result_timeout test_result_timeout h k e = refl
letter_injective test_result_timeout b h k e = ground arith
letter_injective heartbeat_timeout heartbeat_timeout h k e = refl
letter_injective heartbeat_timeout b h k e = ground arith
letter_injective retry_backoff retry_backoff h k e = refl
letter_injective retry_backoff b h k e = ground arith
letter_injective manual_review_sla manual_review_sla h k e = refl
letter_injective manual_review_sla b h k e = ground arith
letter_injective (other_timer s) b h k e = absurd h

type_and_station :
    (a b : TimerType) (s t : String)
    → IsOwn a
    → IsOwn b
    → concat (timer_text a) (concat ":" s) ≡ concat (timer_text b) (concat ":" t)
    → (a ≡ b) × (s ≡ t)
type_and_station a b s t h k e =
    let same = letter_injective a b h k (sym (letter a _ h) ∙ ap initial e ∙ letter b _ k) in
    let e' = rw (← same) at e in
    (same, append_cancel_left ":" _ _ (append_cancel_left (timer_text a) _ _ e'))

-- no colon in a text
abbrev pub HasNoColon : String → Type 0
HasNoColon String.[] = Unit
HasNoColon (String.◌∷◌ c s) = (code c ≢ b':') × HasNoColon s

-- A text up to its first colon is determined by the whole.
up_to_colon :
    (u v x y : String)
    → HasNoColon u
    → HasNoColon v
    → concat u (concat ":" x) ≡ concat v (concat ":" y)
    → (u ≡ v) × (x ≡ y)
up_to_colon String.[] String.[] x y h k e =
    (refl, append_cancel_left ":" _ _ (sym (nil _) ∙ e ∙ nil _))
up_to_colon String.[] (String.◌∷◌ d v) x y h k e =
    absurd (k.0 (ap initial (sym (cons d v _) ∙ sym e ∙ nil _ ∙ cons ":" "" x)))
up_to_colon (String.◌∷◌ c u) String.[] x y h k e =
    absurd (h.0 (ap initial (sym (cons c u _) ∙ e ∙ nil _ ∙ cons ":" "" y)))
up_to_colon (String.◌∷◌ c u) (String.◌∷◌ d v) x y h k e =
    let e' = sym (cons c u _) ∙ e ∙ cons d v _ in
    let (same, rest) = up_to_colon u v x y h.1 k.1 (tail-eq_of_cons-eq e') in
    (ap₂ String.◌∷◌ (head-eq_of_cons-eq e') same, rest)

-- Two keys of timers that the program starts, for units whose identifiers have no colon, are the
-- same text only if unit, timer type and station are the same.
pub timer_key-injective :
    (u v : String) (a b : TimerType) (s t : String)
    → HasNoColon u
    → HasNoColon v
    → IsOwn a
    → IsOwn b
    → timer_key u a s ≡ timer_key v b t
    → (u ≡ v) × (a ≡ b) × (s ≡ t)
unfolding timer_key
timer_key-injective u v a b s t hu hv ha hb e =
    let (units, rest) = up_to_colon u v _ _ hu hv e in
    let (types, stations) = type_and_station a b s t ha hb rest in (units, types, stations)

-- For one unit that needs no condition on its identifier.
pub timer_key-injective_at :
    (u : String) (a b : TimerType) (s t : String)
    → IsOwn a
    → IsOwn b
    → timer_key u a s ≡ timer_key u b t
    → (a ≡ b) × (s ≡ t)
unfolding timer_key
timer_key-injective_at u a b s t ha hb e =
    type_and_station a b s t ha hb (append_cancel_left ":" _ _ (append_cancel_left u _ _ e))

-- A workflow identifier that `New` gives is not empty.
pub prefix-ne-nil : (unit : String) → concat "wf-" unit ≢ ""
prefix-ne-nil unit e = cons-ne-nil "w" (concat "f-" unit) (sym (cons "w" "f-" unit) ∙ e)
