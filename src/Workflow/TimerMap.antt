-- ===== src/Workflow/TimerMap.antt =====
-- The timers that are set once the answers of internal/workflow/engine.go are followed: a map from keys
-- to timers, as either runtime keeps one.
use forge_mini.Base.{
  String, ◌≡◌, refl, ◌∙◌, ap, Option, none, some, Option-cases, Bool-cases, inl, inr, List, [], ◌∷◌,
  str_eq, if◌then◌else◌, arith,
}
use forge_mini.Base.Dict.{Dict, lookup, insert, erase, lookup-insert, lookup-erase}
use forge_mini.Workflow.Decisions.{TimerRequest, TimerPayload, TransitionResult}
use forge_mini.Workflow.Timers.{contains}

-- the last of the requests for a key
abbrev pub last_with : String → List TimerRequest → Option TimerRequest
last_with key [] = none
last_with key (req ∷ reqs) = elim (last_with key reqs) [
  | some later ↦ some later
  | none ↦ if str_eq req.key key then some req else none
]

-- the timer of a request, what was there before where there is none
abbrev pub set_or :
    (TimerRequest → TimerPayload) → Option TimerRequest → Option TimerPayload → Option TimerPayload
set_or payload (some req) before = some (payload req)
set_or payload none before = before

-- The timer of a key once an answer is followed: a timer that is started is set, one that is only
-- cancelled is gone, and another is what it was.
abbrev pub timer_after :
    (TimerRequest → TimerPayload)
    → TransitionResult
    → String
    → Option TimerPayload
    → Option TimerPayload
timer_after payload result key before =
    set_or payload (last_with key result.timers_to_start)
      (if contains result.timers_to_cancel key then none else before)

-- the two loops that the runtimes have
abbrev pub erase_all : List String → Dict TimerPayload → Dict TimerPayload
erase_all [] timers = timers
erase_all (key ∷ keys) timers = erase_all keys (erase key timers)

abbrev pub insert_all :
    (TimerRequest → TimerPayload) → List TimerRequest → Dict TimerPayload → Dict TimerPayload
insert_all payload [] timers = timers
insert_all payload (req ∷ reqs) timers =
    insert_all payload reqs (insert req.key (payload req) timers)

lookup-erase_all :
    (keys : List String) (timers : Dict TimerPayload) (key : String)
    → lookup key (erase_all keys timers) ≡ (if contains keys key then none else lookup key timers)
unfolding contains
lookup-erase_all [] timers key = refl
lookup-erase_all (k ∷ keys) timers key =
    lookup-erase_all keys (erase k timers) key ∙ rw (lookup-erase k key timers) (ground arith)

lookup-insert_all :
    (payload : TimerRequest → TimerPayload) (reqs : List TimerRequest) (timers : Dict TimerPayload)
    (key : String)
    → lookup key (insert_all payload reqs timers)
      ≡ set_or payload (last_with key reqs) (lookup key timers)
lookup-insert_all payload [] timers key = refl
lookup-insert_all payload (req ∷ reqs) timers key =
    lookup-insert_all payload reqs (insert req.key (payload req) timers) key
    ∙ ap (set_or payload (last_with key reqs)) (lookup-insert req.key key (payload req) timers)
    ∙ (elim (Option-cases (last_with key reqs)) [
      | inl e ↦
          rw e (elim (Bool-cases (str_eq req.key key)) [ inl q ↦ rw q refl | inr q ↦ rw q refl ])
      | inr (later, e) ↦ rw e refl
    ])

-- Erasing and then inserting follows an answer.
pub lookup-followed :
    (payload : TimerRequest → TimerPayload) (result : TransitionResult) (timers : Dict TimerPayload)
    (key : String)
    → lookup key
        (insert_all payload result.timers_to_start (erase_all result.timers_to_cancel timers))
      ≡ timer_after payload result key (lookup key timers)
lookup-followed payload result timers key =
    lookup-insert_all payload result.timers_to_start (erase_all result.timers_to_cancel timers) key
    ∙ ap (set_or payload (last_with key result.timers_to_start))
        (lookup-erase_all result.timers_to_cancel timers key)
