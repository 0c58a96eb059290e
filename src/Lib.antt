-- ===== src/Lib.antt =====
-- Forge Mini: a unit's way through assembly, test and inspection, as a workflow that signals and
-- timers drive. A model of the Go code and what is proved of it.
--
-- The parts and how they interact. The server (internal/httpapi/server.go) decodes a request and calls
-- the runtime that the container (internal/app/app.go) chose. In process this is `Service` (also
-- internal/app/app.go): for a signal or a timer it loads the unit's snapshot from the store
-- (internal/store/memory.go), asks the engine (internal/workflow/engine.go) for the next snapshot, the
-- decisions, the timers and what to do with the incidents, and commits that answer: it writes the store
-- and rebuilds the dashboard rows, which the server reads. The engine asks the retry policy
-- (internal/policy/retry.go) about a failed test. The other runtime
-- (internal/temporalruntime/runtime.go) sends signals and timers to a workflow of the Temporal server
-- (internal/temporalruntime/workflow.go), which runs the same engine and keeps the snapshot itself.
--
-- Files:
--   Base           numbers, times, errors, maps: Base/Machine has Go's int and time.Time, Base/Dict its
--                  maps with text keys, Base/Errors its errors and (value, error) results, Base/Action the
--                  methods that change a state, Base/Preserves what they keep, and Base/Decimals the
--                  decimal texts read back
--   Signals        internal/signals/types.go; `Codec` stands for the calls of encoding/json
--   Policy         internal/policy/retry.go; Policy/Default what the default policy promises
--   Incidents      internal/incidents/types.go
--   Projections    internal/projections/types.go
--   Workflow       Workflow/State is internal/workflow/types.go, Workflow/Decisions is
--                  internal/workflow/decisions.go. `Engine.ApplySignal` and `Engine.ApplyTimer` of
--                  internal/workflow/engine.go are in Workflow/Engine; the cases of the switch are in
--                  Workflow/Cases and Workflow/TestCases, which say how they end by a `Branch`
--                  (Workflow/Branch): reject, return an error, or go on to the timer bookkeeping
--                  (Workflow/Timers)
--   Workflow/...   proofs: Lifecycle (the steps of a unit as a relation), ActiveTimers, TimerFit,
--                  TimerInvariant, PlainCases, Scheduling, Activates (the keys of active timers),
--                  RetryBudget, Holds, Identity (whose an answer is), Keys and DecisionIds (when two
--                  keys or identifiers are the same text), Moves, Finish, TimerMap (the timers of a
--                  runtime that follows an answer), and Run (any sequence of events; Run/Counts has
--                  the count of failed tests)
--   Store          internal/store/memory.go, a record of maps; Store/Reads what is read after a write
--   Triage         internal/triage/service.go; Triage/Agrees is a proof
--   Sim            internal/sim/scenarios.go
--   Orchestration  internal/orchestration/runtime.go, and the loop over the steps of a scenario that both
--                  runtimes have
--   App            internal/app/app.go: App/Service has the methods of `Service`, App/Commit what
--                  `commitTransition` calls, App/Container the constructors and `Close`. App/Monad is
--                  the state of the service, a store and the number of clock readings so far, and
--                  App/System that of the process, with the Temporal side. App/Effects,
--                  App/Committed, App/Mirror (the incidents and their rows), App/Recorded (a commit as a
--                  whole), App/Once, App/Filed, App/Shown, App/Serve, App/Answers, App/Keeps,
--                  App/Closing and App/Incidents (open incidents) are proofs
--   Temporal       internal/temporalruntime/workflow.go: the loop of `UnitWorkflow`, a pass for each event
--                  that the SDK's selector picks. Temporal/Abstract describes the course of a unit without
--                  the loop; Temporal/Refines and Temporal/Scheduled are proofs.
--                  Temporal/Sdk is the part of the Temporal SDK that the program calls, as a parameter;
--                  over it stand Temporal/Worker (internal/temporalruntime/types.go and worker.go) and
--                  Temporal/Runtime (internal/temporalruntime/runtime.go); Temporal/Blind is a proof
--   Http           internal/httpapi/server.go: Http/Routes has the table of routes and how the mux picks
--                  one, Http/Handlers the handlers, Http/Paths the functions on paths; Http/Splitting,
--                  Http/Keeps, Http/InOrder, Http/Statuses, Http/Units and Http/ReadOnly are proofs
--   Tests          concrete runs
--
-- Conventions. A state, a timer type or a signal type is a Go string; it is a data type here, with a
-- constructor for each constant, and `other` for the remaining texts of the types that come in from
-- outside. An int is its 64-bit pattern, with the wrap-around of addition written out. A time is a
-- number of nanoseconds since the zero Time, without a bound; UnixNano wraps. The decimal text of an
-- int64 is made with a fuel of 20 digits, the most that 64 bits have. A method that changes the store
-- returns the new store. The order in which Go ranges over a map is not fixed; the model has the order
-- of first insertion. Slices and maps are values here: the code updates AttemptCountByStation and the
-- array of ActiveTimerKeys in place, where the old snapshot is replaced by the new one before it is
-- read again.
-- A path of a request is taken to be clean, as the mux makes it by a redirect, and the redirect to a path
-- with a slash has the status 307, as from Go 1.26 on. Bodies that the standard library writes (404, 405, redirects) are constants.
--
-- Not modelled: the mutex of the store (a call is one step, and a request is served before the next one
-- begins), the Temporal SDK and its server (parameters in Temporal/Sdk), the texts of encoding/json (a
-- decoder is a parameter, and what is encoded is a value), cmd/server/main.go, which starts the server and
-- logs, and internal/app/testing.go, which sets the clock of a test.
pub mod Base
pub mod Signals
pub mod Policy
pub mod Incidents
pub mod Projections
pub mod Workflow
pub mod Store
pub mod Triage
pub mod Sim
pub mod Orchestration
pub mod App
pub mod Temporal
pub mod Http
pub mod Tests
