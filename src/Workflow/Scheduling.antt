-- ===== src/Workflow/Scheduling.antt =====
-- The timers that `Engine.ApplySignal` and `Engine.ApplyTimer` of internal/workflow/engine.go ask to
-- start and to cancel, against the active timer keys of the snapshot that they return.
use forge_mini.Base.{
  String, ◌≡◌, refl, ◌∙◌, Bool, true, false, ◌||◌, List, [], ◌∷◌, arith, str_eq, eq_iff, Bool-cases,
  inl, inr,
}
use forge_mini.Workflow.State.{TimerType}
use forge_mini.Workflow.Decisions.{TimerRequest}
use forge_mini.Workflow.Keys.{IsOwn, timer_key-injective_at}
use forge_mini.Workflow.Timers.{timer_key, contains, remove_timer, add_timers, remove_timers}
use forge_mini.Workflow.ActiveTimers.{NoneHas, contains-append, contains-remove_timer}

-- some timer to start has the key
unfoldable pub starts : List TimerRequest → String → Bool
starts [] key = false
starts (req ∷ reqs) key = str_eq req.key key || starts reqs key

-- the key is not among those to cancel
abbrev pub NotIn : String → List String → Type 0
NotIn key [] = Unit
NotIn key (k ∷ keys) = (str_eq k key ≡ false) × NotIn key keys

-- No timer is to be cancelled and started.
abbrev pub AreApart : List String → List TimerRequest → Type 0
AreApart [] reqs = Unit
AreApart (k ∷ keys) reqs = NoneHas k reqs × AreApart keys reqs

NoneHas-starts :
    (reqs : List TimerRequest) (k key : String)
    → NoneHas k reqs
    → starts reqs key ≡ true
    → str_eq k key ≡ false
unfolding starts
NoneHas-starts [] k key n h = absurd (cc)
NoneHas-starts (req ∷ reqs) k key n h =
    ground (
      arith,
      NoneHas-starts reqs k key n.1,
      n.0,
      eq_iff k key,
      eq_iff req.key key,
      eq_iff req.key k,
    )

pub AreApart-NotIn :
    (keys : List String) (reqs : List TimerRequest) (key : String)
    → AreApart keys reqs
    → starts reqs key ≡ true
    → NotIn key keys
AreApart-NotIn [] reqs key a h = tt
AreApart-NotIn (k ∷ keys) reqs key (n, a) h =
    (NoneHas-starts reqs k key n h, AreApart-NotIn keys reqs key a h)

pub contains-add_timers :
    (reqs : List TimerRequest) (keys : List String) (key : String)
    → contains (add_timers keys reqs) key ≡ (contains keys key || starts reqs key)
unfolding add_timers starts
contains-add_timers [] keys key = ground arith
contains-add_timers (req ∷ reqs) keys key = elim (Bool-cases (contains keys req.key)) [
  | inl old ↦ rw old (contains-add_timers reqs keys key ∙ ground (arith, eq_iff req.key key))
  | inr new ↦
      rw new (contains-add_timers reqs _ key ∙ rw (contains-append keys req.key key) (ground arith))
]

pub contains-remove_timers :
    (cancelled keys : List String) (key : String)
    → NotIn key cancelled
    → contains keys key ≡ true
    → contains (remove_timers keys cancelled) key ≡ true
unfolding remove_timers
contains-remove_timers [] keys key n h = h
contains-remove_timers (k ∷ cancelled) keys key n h =
    contains-remove_timers cancelled (remove_timer keys k) key n.1
      (contains-remove_timer keys k key ∙ rw (h, n.0) refl)

-- Keys of two types are different.
pub keys_differ :
    (unit : String) (a b : TimerType) (s t : String)
    → IsOwn a
    → IsOwn b
    → (a ≡ b → ⊥)
    → str_eq (timer_key unit a s) (timer_key unit b t) ≡ false
keys_differ unit a b s t ha hb ne = ground (
  arith,
  eq_iff (timer_key unit a s) (timer_key unit b t),
  timer_key-injective_at unit a b s t ha hb,
)
