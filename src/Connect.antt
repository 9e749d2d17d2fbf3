-- ===== src/Connect.antt =====
-- src/connect: how a client gets to know the server, and stays known.
pub mod Request
pub mod Outcome
pub mod Operations
pub mod Lookup
pub mod Handler
