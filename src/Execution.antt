-- ===== src/Execution.antt =====
-- The execution runtime of hft-lead-lag/src/event_loop_execution.rs: the queue of order intents and
-- the worker that sends them.
pub mod Types
pub mod Queue
pub mod Overflow
pub mod Worker
pub mod Runs
pub mod Ledger
pub mod KillSwitch
pub mod Streak
pub mod Depth
pub mod Consistent
