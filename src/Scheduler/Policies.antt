-- ===== src/Scheduler/Policies.antt =====
-- scheduler/policies.py: the snapshots, and the placement of a task on the workers.
pub mod Snapshots
pub mod Placements
pub mod Admits
pub mod Choice
pub mod Priority
pub mod Precheck
mod Examples
