-- ===== src/Threads/Queue.antt =====
-- `ThreadQueue_PushThread`, `ThreadQueue_PopThread` and `ThreadQueue_RemoveThread` of
-- kernel/source/scheduler/threads.c. The walks run on fuel: `hang` says that it was used up.
use star_struck.Base.{
  ℕ, zero, suc, ◌||◌, ℤ, lt_int, ◌==◌, if◌then◌else◌, Run, ok, fault, hang, ◌>>=◌,
}
use star_struck.Threads.State.{Kernel, null, next_cell, next, write_link, write_thread}

-- Every thread and the starting state, once.
abbrev pub walk_fuel : ℕ
walk_fuel = 102

-- The loop of the push: `cell` is `previousThread` and `t` is `nextThread`. It ends with the cell
-- to write and the thread to link behind.
unfoldable pub push_walk : ℕ → Kernel → ℤ → ℕ → ℕ → Run (ℕ × ℕ)
push_walk zero k priority cell t = hang
push_walk (suc fuel) k priority cell t =
    let rest = push_walk fuel k priority (next_cell t) (next k t) in
    if t == null
    then fault
    else if lt_int priority (k.threads t).priority
    then rest
    else ok (cell, t)

-- The three writes behind the loop.
unfoldable pub link : Kernel → ℕ → ℕ → ℕ × ℕ → Kernel
link k queue thread (cell, t) =
    let k1 = write_link k cell thread in
    let k2 = write_thread k1 thread (record (k1.threads thread) { thread_queue = queue }) in
    write_link k2 (next_cell thread) t

unfoldable pub push_thread : ℕ → ℕ → Kernel → Run Kernel
unfolding push_walk link
push_thread queue thread k = if (queue == null) || (thread == null) then ok k else (do
  place ← push_walk walk_fuel k (k.threads thread).priority queue (k.links queue)
  ok (link k queue thread place))

unfoldable pub pop_thread : ℕ → Kernel → Run (ℕ × Kernel)
pop_thread queue k =
    let t = k.links queue in
    if (queue == null) || (t == null) then fault else ok (t, write_link k queue (next k t))

-- The loop of the removal: `cell` is `threadQueue` and `t` is `thread`.
unfoldable pub remove_walk : ℕ → ℕ → ℕ → ℕ → Kernel → Run Kernel
remove_walk zero target cell t k = hang
remove_walk (suc fuel) target cell t k =
    let rest = remove_walk fuel target (next_cell t) (next k t) k in
    if t == null then ok k else if t == target then ok (write_link k cell (next k target)) else rest

unfoldable pub remove_thread : ℕ → ℕ → Kernel → Run Kernel
unfolding remove_walk
remove_thread queue target k =
    if queue == null then fault else remove_walk walk_fuel target queue (k.links queue) k
