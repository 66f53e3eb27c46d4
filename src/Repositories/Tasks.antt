-- ===== src/Repositories/Tasks.antt =====
-- repositories/tasks.py: the life of a task, from its assignment to its end.
pub mod Model
pub mod Lifecycle
pub mod Cancel
pub mod Retry
pub mod Ending
pub mod Conclude
pub mod Finish
pub mod Rerun
pub mod Queued
pub mod Concluded
pub mod Freed
pub mod Owned
pub mod Finished
pub mod Recover
pub mod Recovery
pub mod Recovered
pub mod GivenUp
pub mod Revoked
pub mod Expired
pub mod History
pub mod Steps
pub mod Reach
pub mod Fence
pub mod Cancelled
mod Examples
mod FinishExamples
mod RecoverExamples
