-- ===== src/Workflow.antt =====
-- internal/workflow: the engine that decides how a unit's workflow moves.
pub mod DecisionIds
pub mod Identity
pub mod State
pub mod Decisions
pub mod Timers
pub mod Branch
pub mod Cases
pub mod TestCases
pub mod Engine
pub mod Outcome
pub mod Keys
pub mod ActiveTimers
pub mod TimerFit
pub mod Lifecycle
pub mod TimerMap
pub mod PlainCases
pub mod Scheduling
pub mod Activates
pub mod TimerInvariant
pub mod RetryBudget
pub mod Run
pub mod Holds
pub mod Moves
pub mod Finish
