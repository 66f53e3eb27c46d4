-- ===== src/Repositories.antt =====
-- repositories/: what the transactions do to the rows that they lock.
pub mod Quotas
pub mod Tasks
pub mod Dag
pub mod Reservations
pub mod Outbox
