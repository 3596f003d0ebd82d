-- ===== src/Threads/Tests.antt =====
-- Runs of the theorems on kernel/source/scheduler/threads.c on a small kernel.
use star_struck.Base.{
  ℕ, ◌≡◌, refl, ◌||◌, ◌==◌, ℤ, pos, negsuc, List, [], ◌∷◌, has, inl, inr, if◌then◌else◌, arith, ok,
}
use star_struck.Threads.State.{
  Kernel, ThreadInfo, ThreadContext, ThreadState, null, starting_state, next_cell, scheduler_queue,
  receive_queue,
}
use star_struck.Threads.Schedule.{preempt, unblock_thread}
use star_struck.Threads.Switch.{IsScheduled, IsTop, Conserves}
use star_struck.Threads.Preempt.{preempt-IsTop}
use star_struck.Threads.Unblock.{unblock_thread-IsTop}
use star_struck.Threads.UnblockStart.{unblock_start-IsTop}
use star_struck.Threads.Syscalls.{success, create_thread, start_thread}
use star_struck.Threads.Start.{start_thread-IsTop}
use star_struck.Threads.Create.{Created, create_thread-Created}

abbrev context : ThreadContext
context = record {
  status_register = 0x10;
  register0 = 0;
  stack_pointer = 0x2000;
  link_register = 0;
  program_counter = 0x1000;
}

abbrev thread : ℤ → ThreadState → ThreadInfo
thread priority state = record {
  context = context;
  initial_priority = priority;
  priority = priority;
  thread_state = state;
  process_id = 7;
  is_detached = 0;
  return_value = 0;
  join_queue = null;
  thread_queue = null;
  default_thread_stack = 0x3000;
}

-- Thread 4 has a higher priority than all others, thread 9 is unset,
-- and thread 11 is stopped.
abbrev threads : ℕ → ThreadInfo
threads t =
    if t == starting_state
    then thread (negsuc 0) ThreadState.ready
    else if t == 4
    then thread (pos 60) ThreadState.waiting
    else if t == 9
    then thread (pos 30) ThreadState.unset
    else if t == 11
    then thread (pos 30) ThreadState.stopped
    else thread (pos 30) ThreadState.ready

-- Thread 2 runs, thread 3 is ready, thread 4 waits to receive from the message queue 0, and the send
-- queue of the message queue 0 is as `CreateMessageQueue` leaves it.
abbrev pub kernel : Kernel
kernel = record {
  links = λ c.
      if c == scheduler_queue
      then 3
      else if c == receive_queue 0
      then 4
      else if c == next_cell starting_state
      then null
      else starting_state;
  threads = threads;
  current = 2;
  process_uid = λ p. p;
  process_gid = λ p. p;
  cpu = context;
  return_to_lr = 0;
  thread_end = 0;
  domain_access = 7;
  hardware_access = 7;
}

pub kernel-IsScheduled : IsScheduled kernel (3 ∷ [])
kernel-IsScheduled = record {
  queue = (refl, omega arith, refl, refl);
  ordered = (tt, tt);
  current = omega arith;
  apart = refl;
  room = omega arith;
  floor = λ t h. ground arith;
}

pub kernel-IsTop : IsTop kernel
kernel-IsTop = refl

preempt-IsTop_example :
    (g : Kernel) × (ys : List ℕ) × (preempt kernel ≡ ok g)
    × IsScheduled g ys
    × IsTop g
    × Conserves kernel (3 ∷ []) g ys
preempt-IsTop_example = preempt-IsTop kernel (3 ∷ []) kernel-IsScheduled

unblock_thread-IsTop_example :
    (g : Kernel) × (ys : List ℕ) × (unblock_thread (receive_queue 0) (pos 0) kernel ≡ ok g)
    × IsScheduled g ys
    × IsTop g
    × ((t : ℕ) → ((t == g.current) || has t ys) ≡ ((t == 2) || ((t == 4) || has t (3 ∷ []))))
unblock_thread-IsTop_example =
    unblock_thread-IsTop kernel (receive_queue 0) 4 [] (3 ∷ []) (pos 0) refl (omega arith)
      (refl, omega arith, refl, refl) kernel-IsScheduled refl (omega arith) (omega arith)

unblock_start-IsTop_example :
    (g : Kernel) × (ys : List ℕ) × (unblock_thread (receive_queue 1) (pos 0) kernel ≡ ok g)
    × IsScheduled g ys
    × IsTop g
    × Conserves kernel (3 ∷ []) g ys
unblock_start-IsTop_example =
    unblock_start-IsTop kernel (receive_queue 1) (3 ∷ []) (pos 0) refl (omega arith) refl
      kernel-IsScheduled

create_thread-Created_example :
    Created kernel (pos 20) (create_thread 0x1000 0 0x4000 0x100 (pos 20) 1 kernel)
create_thread-Created_example =
    create_thread-Created 0x1000 0 0x4000 0x100 (pos 20) 1 kernel (omega arith) (inr (omega arith))
      (inr refl)

start_thread-IsTop_example :
    (g : Kernel) × (ys : List ℕ) × (start_thread (pos 9) kernel ≡ ok (success, g))
    × IsScheduled g ys
    × IsTop g
    × ((u : ℕ) → ((u == g.current) || has u ys) ≡ ((u == 2) || ((u == 11) || has u (3 ∷ []))))
start_thread-IsTop_example =
    start_thread-IsTop kernel 9 (3 ∷ []) kernel-IsScheduled (omega arith) (omega arith) refl refl
      (inl refl) refl (omega arith) (omega arith)
