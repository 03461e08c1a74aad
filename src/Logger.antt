-- ===== src/Logger.antt =====
-- 12_error_handling/logger.c: the logging library: its levels, its settings in the environment, and
-- where a message goes. The queue of an asynchronous logger is in Logger/Queue.
pub mod Queue
pub mod Levels
pub mod State
pub mod Slots
pub mod Calls
pub mod Routed
pub mod Sink
pub mod Write
pub mod Info
mod Tests
