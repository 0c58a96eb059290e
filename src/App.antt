-- ===== src/App.antt =====
-- internal/app: the in-process runtime, which puts the engine, the store and the clock together.
pub mod Monad
pub mod System
pub mod Commit
pub mod Effects
pub mod Committed
pub mod Service
pub mod Container
pub mod Closing
pub mod Once
pub mod Filed
pub mod Incidents
pub mod Mirror
pub mod Recorded
pub mod Shown
pub mod Keeps
pub mod Answers
pub mod Serve
