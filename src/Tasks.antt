-- ===== src/Tasks.antt =====
-- src/tasks: what the server does from time to time.
pub mod Task
pub mod ClientIntegrityTask
pub mod RoundOff
pub mod RotateTarget
pub mod LogRotator
