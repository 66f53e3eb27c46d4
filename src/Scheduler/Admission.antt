-- ===== src/Scheduler/Admission.antt =====
-- scheduler/admission.py: requests, capacity pools, and the choice of one pool.
pub mod Reasons
pub mod Model
pub mod Choose
pub mod Filters
pub mod Eligible
pub mod Sifted
pub mod Decisions
pub mod Total
mod Examples
