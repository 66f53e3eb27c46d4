-- ===== src/Repositories/Quotas.antt =====
-- repositories/quotas.py: the limits of a project and its counters.
pub mod Model
pub mod Operations
pub mod Commitments
pub mod Fit
pub mod Invariant
pub mod Steps
pub mod Artifacts
pub mod Reach
pub mod Execution
pub mod Reserved
pub mod Restore
pub mod Feasible
mod Examples
