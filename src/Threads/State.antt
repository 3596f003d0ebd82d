-- ===== src/Threads/State.antt =====
-- The data of kernel/source/scheduler/threads.h and the globals of threads.c (kernel build, without
-- MIOS).
use star_struck.Base.{ℕ, ◌+◌, ◌*◌, ℤ, Bool, true, false, update}

abbrev pub max_processes : ℕ
max_processes = 20

abbrev pub max_threads : ℕ
max_threads = 100

pub data ThreadState : Type 0 where
  unset ready running stopped waiting dead faulted : ThreadState

abbrev pub is_unset : ThreadState → Bool
is_unset ThreadState.unset = true
is_unset _ = false

abbrev pub is_stopped : ThreadState → Bool
is_stopped ThreadState.stopped = true
is_stopped _ = false

abbrev pub is_dead : ThreadState → Bool
is_dead ThreadState.dead = true
is_dead _ = false

-- A pointer to a thread.
abbrev pub null : ℕ
null = 0

abbrev pub starting_state : ℕ
starting_state = 1

abbrev pub thread_at : ℕ → ℕ
thread_at i = i + 2

-- The address of a `NextThread` cell: that of a thread is even, that of a queue is odd.
abbrev pub next_cell : ℕ → ℕ
next_cell t = 2 * t

abbrev pub scheduler_queue : ℕ
scheduler_queue = 1

abbrev pub receive_queue : ℕ → ℕ
receive_queue m = 4 * m + 3

abbrev pub send_queue : ℕ → ℕ
send_queue m = 4 * m + 5

-- `ThreadContext` with the registers that C code or a switch writes by name: of the general
-- registers only `Registers[0]`.
pub record ThreadContext : Type 0 where
  pub status_register : ℕ
  pub register0 : ℕ
  pub stack_pointer : ℕ
  pub link_register : ℕ
  pub program_counter : ℕ

-- The fields of `ThreadInfo` but `NextThread`, which is a cell of the kernel's `links`, and
-- `UserContext`, which the exception code alone uses.
pub record ThreadInfo : Type 0 where
  pub context : ThreadContext
  pub initial_priority : ℤ
  pub priority : ℤ
  pub thread_state : ThreadState
  pub process_id : ℕ
  pub is_detached : ℕ
  pub return_value : ℕ
  pub join_queue : ℕ
  pub thread_queue : ℕ
  pub default_thread_stack : ℕ

-- `cpu` holds the processor's registers, `return_to_lr` and `thread_end` the addresses of
-- `ReturnToLr` and of the copy of `EndThread`.
-- `domain_access` and `hardware_access` are the processes whose domain access control word and
-- hardware register table are loaded.
pub record Kernel : Type 0 where
  pub links : ℕ → ℕ
  pub threads : ℕ → ThreadInfo
  pub current : ℕ
  pub process_uid : ℕ → ℕ
  pub process_gid : ℕ → ℕ
  pub cpu : ThreadContext
  pub return_to_lr : ℕ
  pub thread_end : ℕ
  pub domain_access : ℕ
  pub hardware_access : ℕ

-- `thread->NextThread`
abbrev pub next : Kernel → ℕ → ℕ
next k t = k.links (next_cell t)

abbrev pub write_link : Kernel → ℕ → ℕ → Kernel
write_link k c t = record k { links = update k.links c t }

abbrev pub write_thread : Kernel → ℕ → ThreadInfo → Kernel
write_thread k t info = record k { threads = update k.threads t info }

abbrev pub set_state : Kernel → ℕ → ThreadState → Kernel
set_state k t s = write_thread k t (record (k.threads t) { thread_state = s })
