-- ===== src/Workflow/ActiveTimers.antt =====
-- The list of active timer keys under the loops of internal/workflow/engine.go.
use forge_mini.Base.{
  String, ◌≡◌, refl, false, not, ◌&&◌, ◌||◌, List, [], ◌∷◌, ◌++◌, arith, str_eq, eq_iff, Bool-cases,
  inl, inr,
}
use forge_mini.Workflow.Decisions.{TimerRequest}
use forge_mini.Workflow.Timers.{contains, remove_timer, add_timers, remove_timers}

-- no key stands twice in the list
abbrev pub Distinct : List String → Type 0
Distinct [] = Unit
Distinct (k ∷ keys) = (contains keys k ≡ false) × Distinct keys

pub contains-append :
    (keys : List String) (k t : String)
    → contains (keys ++ (k ∷ [])) t ≡ (contains keys t || str_eq k t)
unfolding contains
contains-append [] k t = ground arith
contains-append (v ∷ keys) k t = ground (arith, contains-append keys k t)

pub contains-remove_timer :
    (keys : List String) (k t : String)
    → contains (remove_timer keys k) t ≡ (contains keys t && not (str_eq k t))
unfolding contains remove_timer
contains-remove_timer [] k t = refl
contains-remove_timer (v ∷ keys) k t =
    ground (arith, contains-remove_timer keys k t, eq_iff v k, eq_iff v t, eq_iff k t)

pub Distinct-append :
    (keys : List String) (k : String)
    → Distinct keys
    → contains keys k ≡ false
    → Distinct (keys ++ (k ∷ []))
unfolding contains
Distinct-append [] k d h = (refl, tt)
Distinct-append (v ∷ keys) k d h =
    ground (arith, Distinct-append keys k d.1, contains-append keys k v, eq_iff k v, eq_iff v k)

pub Distinct-remove_timer :
    (keys : List String) (k : String) → Distinct keys → Distinct (remove_timer keys k)
unfolding remove_timer
Distinct-remove_timer [] k d = tt
Distinct-remove_timer (v ∷ keys) k d =
    ground (arith, Distinct-remove_timer keys k d.1, contains-remove_timer keys k v)

pub Distinct-add_timers :
    (reqs : List TimerRequest) (keys : List String)
    → Distinct keys
    → Distinct (add_timers keys reqs)
unfolding add_timers
Distinct-add_timers [] keys d = d
Distinct-add_timers (req ∷ reqs) keys d = elim (Bool-cases (contains keys req.key)) [
  | inl old ↦ rw old (Distinct-add_timers reqs keys d)
  | inr new ↦ rw new (Distinct-add_timers reqs _ (Distinct-append keys req.key d new))
]

pub Distinct-remove_timers :
    (cancelled keys : List String) → Distinct keys → Distinct (remove_timers keys cancelled)
unfolding remove_timers
Distinct-remove_timers [] keys d = d
Distinct-remove_timers (k ∷ cancelled) keys d =
    Distinct-remove_timers cancelled _ (Distinct-remove_timer keys k d)

-- A key that is not active stays so when timers are cancelled, and when others are started.
pub contains-remove_timers-false :
    (cancelled keys : List String) (t : String)
    → contains keys t ≡ false
    → contains (remove_timers keys cancelled) t ≡ false
unfolding remove_timers
contains-remove_timers-false [] keys t h = h
contains-remove_timers-false (k ∷ cancelled) keys t h =
    contains-remove_timers-false cancelled _ t (ground (arith, contains-remove_timer keys k t))

-- none of the timers to start has the key
abbrev pub NoneHas : String → List TimerRequest → Type 0
NoneHas t [] = Unit
NoneHas t (req ∷ reqs) = (str_eq req.key t ≡ false) × NoneHas t reqs

pub contains-add_timers-false :
    (reqs : List TimerRequest) (keys : List String) (t : String)
    → NoneHas t reqs
    → contains keys t ≡ false
    → contains (add_timers keys reqs) t ≡ false
unfolding add_timers
contains-add_timers-false [] keys t n h = h
contains-add_timers-false (req ∷ reqs) keys t n h = elim (Bool-cases (contains keys req.key)) [
  | inl old ↦ rw old (contains-add_timers-false reqs keys t n.1 h)
  | inr new ↦
      rw new
        (contains-add_timers-false reqs _ t n.1 (ground (arith, contains-append keys req.key t)))
]
