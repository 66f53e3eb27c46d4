-- ===== src/Repositories/Outbox.antt =====
-- repositories/outbox.py: the queue of events for other services, whose consumers hold leases.
pub mod Events
pub mod Selection
pub mod Rows
pub mod Untouched
pub mod Lease
pub mod Claims
mod Examples
