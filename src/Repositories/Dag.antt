-- ===== src/Repositories/Dag.antt =====
-- repositories/dag.py: what a task's dependencies make of it.
pub mod Resolution
pub mod Readiness
pub mod Cycle
pub mod Summary
mod Examples
pub mod Adding
