-- ===== src/Threads/Syscalls.antt =====
-- The thread calls of kernel/source/scheduler/threads.c. Each returns its code and the new state.
use star_struck.Base.{
  ℕ, zero, suc, ◌+◌, ◌%◌, ◌||◌, ◌&&◌, not, Bool, Option, none, some, ℤ, pos, negsuc, lt_int, to_u32,
  ltb, leb, ◌==◌, if◌then◌else◌, Run, ok, fault, ◌>>=◌,
}
use star_struck.Threads.State.{
  Kernel, ThreadState, is_unset, is_stopped, is_dead, null, thread_at, next_cell, max_threads,
  write_link, write_thread, set_state, scheduler_queue,
}
use star_struck.Threads.Queue.{pop_thread, push_thread, remove_thread}
use star_struck.Threads.Schedule.{schedule_yield, yield_current_thread, preempt}

abbrev pub success : ℤ
success = pos 0

abbrev pub ipc_eacces : ℤ
ipc_eacces = negsuc 0

abbrev pub ipc_eintr : ℤ
ipc_eintr = negsuc 2

abbrev pub ipc_einval : ℤ
ipc_einval = negsuc 3

abbrev pub ipc_emax : ℤ
ipc_emax = negsuc 4

abbrev pub Reply : Type 0
Reply = Run (ℤ × Kernel)

abbrev pub process_of : Kernel → ℕ → ℕ
process_of k t = (k.threads t).process_id

-- The scan for the first unset thread: `n` rounds are left from index `i` on.
unfoldable pub find_unset : ℕ → ℕ → Kernel → Option ℕ
find_unset zero i k = none
find_unset (suc n) i k =
    let rest = find_unset n (i + 1) k in
    if is_unset (k.threads (thread_at i)).thread_state then some i else rest

abbrev spsr_user_mode : ℕ
spsr_user_mode = 0x10

abbrev spsr_thumb_mode : ℕ
spsr_thumb_mode = 0x20

-- What `CreateThread` writes to the thread that it selects.
unfoldable pub created : (main arg stack_top : ℕ) → ℤ → ℕ → ℕ → Kernel → Kernel
created main arg stack_top priority detached t k =
    let info = k.threads t in
    let k1 = write_thread k t (record info {
      context = record (info.context) {
        status_register =
            if main % 2 == 1 then spsr_user_mode + spsr_thumb_mode else spsr_user_mode;
        register0 = arg;
        stack_pointer = if stack_top == null then info.default_thread_stack else stack_top;
        link_register = k.thread_end;
        program_counter = main;
      };
      initial_priority = priority;
      priority = priority;
      thread_state = ThreadState.stopped;
      process_id = if k.current == null then 0 else process_of k k.current;
      is_detached = detached;
      join_queue = null;
      thread_queue = null;
    }) in
    write_link k1 (next_cell t) null

unfoldable pub create_thread : (main arg stack_top stacksize : ℕ) → ℤ → ℕ → Kernel → ℤ × Kernel
unfolding find_unset created
create_thread main arg stack_top stacksize priority detached k =
    if leb 0x80 (to_u32 priority)
      || (not (stack_top == null) && (stacksize == 0))
      || (not (k.current == null) && lt_int (k.threads k.current).initial_priority priority)
    then (ipc_einval, k)
    else elim (find_unset max_threads 0 k) [
      | none ↦ (ipc_emax, k)
      | some i ↦ (pos i, created main arg stack_top priority detached (thread_at i) k)
    ]

-- `(threadId == 0 && CurrentThread != NULL) ? CurrentThread : &Threads[threadId]`
abbrev pub selected : ℕ → Kernel → ℕ
selected i k = if (i == 0) && not (k.current == null) then k.current else thread_at i

-- Whether the running thread may act on a thread: the kernel's own process may on all.
abbrev pub may_control : ℕ → Kernel → Bool
may_control t k =
    (k.current == null)
    || (process_of k k.current == 0)
    || (process_of k t == process_of k k.current)

abbrev pub reply : ℤ → Run Kernel → Reply
reply code r = do k ← r; ok (code, k)

-- The queue that a started thread goes to.
unfoldable pub started : ℕ → Kernel → Run Kernel
started t k =
    let queue = (k.threads t).thread_queue in
    if (queue == null) || (queue == scheduler_queue)
    then push_thread scheduler_queue t (set_state k t ThreadState.ready)
    else push_thread queue t (set_state k t ThreadState.waiting)

unfoldable pub start_thread : ℤ → Kernel → Reply
unfolding started
start_thread (negsuc _) k = ok (ipc_einval, k)
start_thread (pos i) k =
    let t = selected i k in
    if leb max_threads i
    then ok (ipc_einval, k)
    else if not (may_control t k)
    then ok (ipc_einval, k)
    else if not (is_stopped (k.threads t).thread_state)
    then ok (ipc_einval, k)
    else (do
      k1 ← started t k
      reply success (if k1.current == null then schedule_yield k1 else preempt k1))

-- What `CancelThread` does to the thread before it gives up the processor.
unfoldable pub wake_joiner : ℕ → Kernel → Run Kernel
wake_joiner queue k = if queue == null then ok k else (do
  (joiner, k1) ← pop_thread queue k
  push_thread scheduler_queue joiner (set_state k1 joiner ThreadState.ready))

unfoldable pub cancelled : ℕ → ℕ → Kernel → Run Kernel
unfolding wake_joiner
cancelled t value k = do
  let k1 = write_thread k t (record (k.threads t) { return_value = value })
  k2 ←
      (if is_stopped (k1.threads t).thread_state then ok k1 else remove_thread scheduler_queue t k1)
  (if (k2.threads t).is_detached == 0
      then wake_joiner (k2.threads t).join_queue (set_state k2 t ThreadState.dead)
      else ok (set_state k2 t ThreadState.unset))

-- The identifier `max_threads` passes the test, and names the place behind the array: a fault.
unfoldable pub cancel_thread : ℤ → ℕ → Kernel → Reply
unfolding cancelled
cancel_thread (negsuc _) value k = ok (ipc_einval, k)
cancel_thread (pos i) value k =
    let t = selected i k in
    if ltb max_threads i
    then ok (ipc_einval, k)
    else if i == max_threads
    then fault
    else if not (may_control t k)
    then ok (ipc_einval, k)
    else (do
      k1 ← cancelled t value k
      (if k1.current == null
          then fault
          else (let info = k1.threads k1.current in
              let k2 =
                write_thread k1 k1.current (record info {
                  context = record (info.context) { register0 = to_u32 success };
                }) in
              reply success (if t == k1.current then schedule_yield k2 else preempt k2))))

-- `resume` is what the other threads do until this one runs again. The second result is what goes
-- through `returnedValue`.
abbrev pub Joined : Type 0
Joined = Run (ℤ × Option ℕ × Kernel)

unfoldable pub joined : ℕ → Kernel → Joined
joined t k = ok (success, some (k.threads t).return_value, set_state k t ThreadState.unset)

unfoldable pub join_thread : ℤ → (Kernel → Kernel) → Kernel → Joined
unfolding joined
join_thread (negsuc _) resume k = ok (ipc_einval, none, k)
join_thread (pos i) resume k =
    let t = selected i k in
    if leb max_threads i
    then ok (ipc_einval, none, k)
    else if not (may_control t k)
    then ok (ipc_einval, none, k)
    else if (t == k.current) || not ((k.threads t).is_detached == 0)
    then ok (success, none, k)
    else if is_dead (k.threads t).thread_state
    then joined t k
    else if k.current == null
    then fault
    else (do
      k1 ← yield_current_thread (k.threads t).join_queue (set_state k k.current ThreadState.waiting)
      joined t (resume k1))

-- The cases of the switch in `SuspendThread`.
unfoldable pub suspended : ThreadState → ℕ → Kernel → Reply
suspended ThreadState.running t k =
    reply success (yield_current_thread null (set_state k t ThreadState.stopped))
suspended ThreadState.ready t k =
    reply success (remove_thread (k.threads t).thread_queue t (set_state k t ThreadState.stopped))
suspended ThreadState.waiting t k =
    reply success (remove_thread (k.threads t).thread_queue t (set_state k t ThreadState.stopped))
suspended ThreadState.unset t k = ok (success, k)
suspended _ t k = ok (ipc_einval, k)

unfoldable pub suspend_thread : ℤ → Kernel → Reply
unfolding suspended
suspend_thread (negsuc _) k = ok (ipc_einval, k)
suspend_thread (pos i) k =
    let t = selected i k in
    if leb max_threads i
    then ok (ipc_einval, k)
    else if not (may_control t k)
    then ok (ipc_einval, k)
    else suspended (k.threads t).thread_state t k
