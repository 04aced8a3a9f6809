-- ===== src/Workflow.antt =====
-- The workflow engine: packages/core/src/control-plane.
pub mod Template
pub mod Runs
pub mod State
pub mod Retry
pub mod Executor
