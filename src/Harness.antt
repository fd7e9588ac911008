-- ===== src/Harness.antt =====
-- src/dollos/harness: who a turn acts for, what it may run, and how its tool calls are run.
pub mod Permissions
pub mod TurnPolicy
pub mod Executor
pub mod ToolCalls
pub mod Passes
pub mod Runner
pub mod Thread
mod Examples
