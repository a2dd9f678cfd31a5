-- ===== src/Runtime.antt =====
-- The coroutine runtime: which processor takes a coroutine, when a timer wakes one, and the loop of a
-- processor.
pub mod Selector
pub mod Timer
pub mod Processor
mod Tests
