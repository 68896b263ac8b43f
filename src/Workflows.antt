-- ===== src/Workflows.antt =====
-- core/workflows: the program compiler, the executor of runs, and the durable waits.
pub mod Vars
pub mod Program
pub mod Run
pub mod Executor
pub mod Advance
pub mod Resume
pub mod Runs
pub mod Waits
mod Tests
