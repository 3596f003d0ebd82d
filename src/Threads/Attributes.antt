-- ===== src/Threads/Attributes.antt =====
-- Priorities, identities, user and group ids, and the initial tables of
-- kernel/source/scheduler/threads.c.
use star_struck.Base.{
  ℕ, ◌+◌, ◌-◌, ◌*◌, ◌%◌, ◌^◌, ◌||◌, ◌&&◌, not, ℤ, pos, negsuc, lt_int, eq_int, to_u32, ltb, leb,
  ◌==◌, if◌then◌else◌, update, Run, ok, fault, ◌>>=◌,
}
use star_struck.Threads.State.{
  Kernel, is_stopped, null, thread_at, max_threads, max_processes, write_thread,
}
use star_struck.Threads.Queue.{push_thread, remove_thread}
use star_struck.Threads.Schedule.{preempt}
use star_struck.Threads.Syscalls.{
  Reply, reply, success, ipc_eacces, ipc_einval, process_of, selected, may_control,
}

-- `stacks` is the address of the thread stacks' area.
abbrev stack_size : ℕ
stack_size = 0x400

unfoldable pub initialize_thread_context : ℕ → Kernel → Kernel
initialize_thread_context stacks k = record k {
  process_uid = λ i. if ltb i max_processes then i else k.process_uid i;
  process_gid = λ i. if ltb i max_processes then i else k.process_gid i;
  threads = λ t.
      if ltb t (thread_at 0) || leb (thread_at max_threads) t
      then k.threads t
      else record (k.threads t) {
        default_thread_stack = (stacks + stack_size * (t - 2 + 1)) % 2 ^ 32;
      };
}

unfoldable pub get_thread_priority : ℤ → Kernel → ℤ
get_thread_priority (negsuc _) k = ipc_einval
get_thread_priority (pos i) k =
    if (i == 0) && not (k.current == null)
    then (k.threads k.current).priority
    else if leb max_threads i
    then ipc_einval
    else if not (may_control (thread_at i) k)
    then ipc_einval
    else (k.threads (thread_at i)).priority

-- The thread leaves its queue and enters it again, at its new place.
unfoldable pub requeued : ℕ → Kernel → Run Kernel
requeued t k = if (t == k.current) || is_stopped (k.threads t).thread_state then ok k else (do
  k1 ← remove_thread (k.threads t).thread_queue t k
  push_thread (k1.threads t).thread_queue t k1)

unfoldable pub set_thread_priority : ℤ → ℤ → Kernel → Reply
unfolding requeued
set_thread_priority (negsuc _) priority k = ok (ipc_einval, k)
set_thread_priority (pos i) priority k =
    let t = selected i k in
    if ltb max_threads i || leb 0x80 (to_u32 priority)
    then ok (ipc_einval, k)
    else if i == max_threads
    then fault
    else if not (may_control t k)
    then ok (ipc_einval, k)
    else if lt_int (k.threads t).initial_priority priority
    then ok (ipc_einval, k)
    else if eq_int (k.threads t).priority priority
    then ok (success, k)
    else (do
      k1 ← requeued t (write_thread k t (record (k.threads t) { priority = priority }))
      reply success (preempt k1))

unfoldable pub get_uid : Kernel → ℕ
get_uid k = k.process_uid (process_of k k.current)

unfoldable pub get_gid : Kernel → ℕ
get_gid k = k.process_gid (process_of k k.current)

unfoldable pub set_uid : ℕ → ℕ → Kernel → ℤ × Kernel
set_uid pid uid k =
    if leb max_processes pid
    then (ipc_einval, k)
    else if leb 2 (process_of k k.current)
    then (ipc_eacces, k)
    else (success, record k { process_uid = update k.process_uid pid uid })

unfoldable pub set_gid : ℕ → ℕ → Kernel → ℤ × Kernel
set_gid pid gid k =
    if leb max_processes pid
    then (ipc_einval, k)
    else if leb 2 (process_of k k.current)
    then (ipc_eacces, k)
    else (success, record k { process_gid = update k.process_gid pid gid })
