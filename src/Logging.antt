-- ===== src/Logging.antt =====
-- src/logging: the requests to log, how they wait, and how they are checked and dispatched.
pub mod LoggingQueue
pub mod LogRequest
pub mod Processor
pub mod LogRequestHandler
pub mod QueuePass
pub mod Dispatcher
