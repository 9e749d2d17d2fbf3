-- ===== src/Net.antt =====
-- src/net: the addresses of the servers that are called.
pub mod Url
