-- ===== src/Core.antt =====
-- src/core: clients, the registry, requests and the configuration.
pub mod Client
pub mod Registry
pub mod JsonDoc
pub mod Printer
pub mod Configuration
pub mod Request
pub mod RequestHandler
