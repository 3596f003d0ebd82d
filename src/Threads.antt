-- ===== src/Threads.antt =====
-- The scheduler of kernel/source/scheduler/threads.c: threads, their queues, and the processor's
-- current thread. Pointers are numbers. A `ThreadInfo*` is 0 for NULL, 1 for
-- `&ThreadStartingState` and `i + 2` for `&Threads[i]`. A `ThreadQueue*` is the address of a
-- `NextThread` cell: the code itself casts `&thread->NextThread` to `ThreadQueue*`.
pub mod State
pub mod Queue
pub mod Chain
pub mod Push
pub mod Order
pub mod Pop
pub mod Schedule
pub mod Switch
pub mod Preempt
pub mod Unblock
pub mod UnblockStart
pub mod Syscalls
pub mod Block
pub mod Create
pub mod Start
pub mod Tests
pub mod Attributes
