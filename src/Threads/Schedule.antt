-- ===== src/Threads/Schedule.antt =====
-- The switch of kernel/source/scheduler/threads.c and threads_asm.s: `ScheduleYield`,
-- `YieldCurrentThread`, `YieldThread` and `UnblockThread`. A function that switches returns the
-- state in which the next thread starts to run; what it does when its own thread is resumed is
-- only to restore the interrupt mask and to return.
use star_struck.Base.{ℕ, ℤ, to_u32, lt_int, ◌==◌, ◌||◌, if◌then◌else◌, Run, ok, fault, ◌>>=◌}
use star_struck.Threads.State.{Kernel, ThreadState, null, write_thread, set_state, scheduler_queue}
use star_struck.Threads.Queue.{pop_thread, push_thread}

-- Makes a thread the running one, loads its process's domains and tables, and its registers.
unfoldable pub switch_to : ℕ → Kernel → Kernel
switch_to t k =
    let pid = (k.threads t).process_id in
    record (set_state k t ThreadState.running) {
      current = t;
      domain_access = pid;
      hardware_access = pid;
      cpu = (k.threads t).context;
    }

unfoldable pub schedule_yield : Kernel → Run Kernel
unfolding switch_to
schedule_yield k = do (t, k1) ← pop_thread scheduler_queue k; ok (switch_to t k1)

-- The saved registers: the queue is the argument in r0, and the thread goes on at `ReturnToLr`.
unfoldable pub save_context : ℕ → Kernel → Kernel
save_context queue k = write_thread k k.current (record (k.threads k.current) {
  context = record (k.cpu) { register0 = queue; program_counter = k.return_to_lr };
})

unfoldable pub yield_current_thread : ℕ → Kernel → Run Kernel
unfolding save_context
yield_current_thread queue k =
    let saved = save_context queue k in
    if k.current == null
    then fault
    else if queue == null
    then schedule_yield saved
    else (do pushed ← push_thread queue k.current saved; schedule_yield pushed)

unfoldable pub yield_thread : Kernel → Run Kernel
yield_thread k =
    if k.current == null
    then fault
    else yield_current_thread scheduler_queue (set_state k k.current ThreadState.ready)

-- Gives the processor up if the first ready thread has a higher priority.
unfoldable pub preempt : Kernel → Run Kernel
preempt k =
    let head = k.links scheduler_queue in
    let yielded = yield_current_thread scheduler_queue (set_state k k.current ThreadState.ready) in
    if (k.current == null) || (head == null)
    then fault
    else if lt_int (k.threads k.current).priority (k.threads head).priority
    then yielded
    else ok k

-- The thread's call returns `value` when it runs again.
abbrev pub resume_with : ℕ → ℤ → Kernel → Kernel
resume_with t value k =
    let info = k.threads t in
    write_thread k t (record info {
      context = record (info.context) { register0 = to_u32 value };
      thread_state = ThreadState.ready;
    })

unfoldable pub unblock_thread : ℕ → ℤ → Kernel → Run Kernel
unblock_thread queue value k = do
  (t, k1) ← pop_thread queue k
  k2 ← push_thread scheduler_queue t (resume_with t value k1)
  preempt k2
