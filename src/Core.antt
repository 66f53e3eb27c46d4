-- ===== src/Core.antt =====
-- core/: the vocabulary, the task state machine and the permissions.
pub mod Enums
pub mod StateMachine
pub mod Rbac
