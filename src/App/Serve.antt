-- ===== src/App/Serve.antt =====
-- The in-process runtime of internal/app/app.go under any sequence of calls of `HandleSignal` and
-- `HandleTimer`, from the empty store on.
use forge_mini.Base.{ℕ, List, [], ◌∷◌, refl}
use forge_mini.Base.Machine.{Time}
use forge_mini.Signals.{OperationalSignal, Codec}
use forge_mini.Policy.{RetryPolicy}
use forge_mini.Workflow.Decisions.{TimerPayload}
use forge_mini.Workflow.Holds.{GivesReasons}
use forge_mini.Store.{get_workflow}
use forge_mini.App.Monad.{World}
use forge_mini.App.Container.{fresh}
use forge_mini.App.Service.{handle_signal, handle_timer}
use forge_mini.App.Shown.{InOrder, handle_signal-InOrder, handle_timer-InOrder}

pub data Call : Type 0 where
  of_signal : OperationalSignal → Call
  of_timer : TimerPayload → Call

module _ (json : Codec) (policy : RetryPolicy) (clock : ℕ → Time) where
  -- one call, whether it returns an answer or an error
  unfoldable pub call : Call → World → World
  call (of_signal signal) w = (handle_signal json policy clock signal w).1
  call (of_timer timer) w = (handle_timer json policy clock timer w).1

  unfoldable pub serve : List Call → World → World
  unfolding call
  serve [] w = w
  serve (c ∷ cs) w = serve cs (call c w)

  pub call-InOrder :
      (c : Call) (w : World) → GivesReasons policy → InOrder w.memory → InOrder (call c w).memory
  unfolding call
  call-InOrder (of_signal signal) w g h = handle_signal-InOrder clock json policy signal w g h
  call-InOrder (of_timer timer) w g h = handle_timer-InOrder clock json policy timer w h

  serve_from :
      (cs : List Call) (w : World)
      → GivesReasons policy
      → InOrder w.memory
      → InOrder (serve cs w).memory
  unfolding serve
  serve_from [] w g h = h
  serve_from (c ∷ cs) w g h = serve_from cs (call c w) g (call-InOrder c w g h)

  -- From the empty store, after any list of calls of `HandleSignal` and `HandleTimer`, under a policy
  -- that gives a reason with every verdict: every stored snapshot has the identifier of its unit and
  -- that of its workflow, its station and hold reason fit its state, and the unit dashboard has a row
  -- for each stored snapshot, with its fields and the last stored decision of its workflow, and no
  -- other row.
  pub serve-InOrder : (cs : List Call) → GivesReasons policy → InOrder (serve cs fresh).memory
  unfolding get_workflow
  serve-InOrder cs g = serve_from cs fresh g ((λ unit. tt), (λ unit. refl))
