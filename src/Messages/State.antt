-- ===== src/Messages/State.antt =====
-- The data of kernel/source/messaging/messageQueue.h, and the system that the calls work on.
use star_struck.Base.{ℕ, ◌+◌, ◌*◌, ◌%◌, ◌^◌, List, ℤ, Option, update}
use star_struck.Threads.State.{Kernel}

abbrev pub max_message_queues : ℕ
max_message_queues = 0x100

-- The flags `None`, `RegisteredEventHandler` and `Invalid`.
abbrev pub flag_none : ℕ
flag_none = 0

abbrev pub flag_invalid : ℕ
flag_invalid = 2

-- `ReceiveThreadQueue` and `SendThreadQueue` are cells of the kernel's links.
pub record MessageQueue : Type 0 where
  pub process_id : ℕ
  pub used : ℕ
  pub first : ℕ
  pub queue_size : ℕ
  pub queue_heap : ℕ

-- `memory` has a word at each address, and `flushed` the ranges given to `DCFlushRange`, the last
-- first.
pub record System : Type 0 where
  pub kernel : Kernel
  pub queues : ℕ → MessageQueue
  pub memory : ℕ → ℕ
  pub flushed : List (ℕ × ℕ)

-- What a thread sees when `YieldCurrentThread` returns to it: the value, and the system as the
-- other threads have left it.
pub record Resume : Type 0 where
  pub value : ℤ
  pub system : System

-- A call that has returned, with what went through its pointer argument, or a call whose thread
-- still waits.
pub data Outcome : Type 0 where
  finished : ℤ → Option ℕ → System → Outcome
  blocked : System → Outcome

-- `&QueueHeap[i]`
abbrev pub slot : MessageQueue → ℕ → ℕ
slot q i = (q.queue_heap + 4 * i) % 2 ^ 32

abbrev pub set_queue : System → ℕ → MessageQueue → System
set_queue s m q = record s { queues = update s.queues m q }
