-- ===== src/Repositories/Reservations.antt =====
-- repositories/reservations.py: the observation of the devices that Kubernetes gave to an execution.
pub mod Observation
pub mod Once
pub mod Settlement
pub mod Returned
pub mod Used
pub mod Settled
mod Examples
