-- ===== src/Admin.antt =====
-- src/admin: the requests of an administrator, and the commands that they become.
pub mod Request
pub mod Command
