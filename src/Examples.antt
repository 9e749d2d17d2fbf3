-- ===== src/Examples.antt =====
-- Concrete clients, requests and queues, on which the theorems are applied.
mod Data
mod Connections
mod Packets
mod Logs
mod Dispatch
mod Archives
mod Rotation
mod Upkeep
mod Numbers
mod Settings
mod Startup
mod Lines
