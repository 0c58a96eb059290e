-- ===== src/Workflow/Timers.antt =====
-- Timer keys and the list of active ones, of internal/workflow/engine.go.
use forge_mini.Base.{String, concat, List, [], ◌∷◌, ◌++◌, Bool, false, ◌||◌, str_eq, if◌then◌else◌}
use forge_mini.Workflow.State.{TimerType, timer_text}
use forge_mini.Workflow.Decisions.{TimerRequest}

-- `timerKey`
unfoldable pub timer_key : String → TimerType → String → String
unfolding timer_text
timer_key unit type station =
    concat unit (concat ":" (concat (timer_text type) (concat ":" station)))

-- `slices.Contains`
unfoldable pub contains : List String → String → Bool
contains [] target = false
contains (v ∷ values) target = str_eq v target || contains values target

-- `removeTimer`. The code writes the kept keys over the front of the given slice; no caller reads
-- that slice again.
unfoldable pub remove_timer : List String → String → List String
remove_timer [] target = []
remove_timer (v ∷ values) target =
    let out = remove_timer values target in if str_eq v target then out else v ∷ out

-- the loop over `TimersToStart` at the end of `ApplySignal`
unfoldable pub add_timers : List String → List TimerRequest → List String
unfolding contains
add_timers keys [] = keys
add_timers keys (req ∷ reqs) =
    add_timers (if contains keys req.key then keys else keys ++ (req.key ∷ [])) reqs

-- the loop over `TimersToCancel` at the end of `ApplySignal`
unfoldable pub remove_timers : List String → List String → List String
unfolding remove_timer
remove_timers keys [] = keys
remove_timers keys (key ∷ cancelled) = remove_timers (remove_timer keys key) cancelled
