-- ===== src/Examples.antt =====
-- The properties at concrete inputs.
mod Template
mod State
mod Retries
mod Queue
mod Locks
mod Cancellation
mod Executor
mod Schedules
mod Tasks
