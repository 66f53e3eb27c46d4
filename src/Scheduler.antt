-- ===== src/Scheduler.antt =====
-- scheduler/: the pure placement and admission policies.
pub mod Policies
pub mod Serving
pub mod Admission
