-- ===== src/Timers.antt =====
-- The timers of kernel/source/scheduler/timer.c.
pub mod State
pub mod Queue
pub mod Calls
pub mod Deadlines
mod Tests
