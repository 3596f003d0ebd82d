-- ===== src/Messages/Tests.antt =====
-- Runs of the theorems on kernel/source/messaging/messageQueue.c on a small system.
use star_struck.Base.{
  ◌≡◌, refl, true, hang, ◌==◌, pos, negsuc, [], ◌∷◌, ◌++◌, none, some, if◌then◌else◌, arith,
}
use star_struck.Threads.State.{Kernel, starting_state, next_cell, receive_queue, send_queue}
use star_struck.Threads.Tests.{kernel, kernel-IsScheduled, kernel-IsTop}
use star_struck.Threads.Syscalls.{success}
use star_struck.Messages.State.{MessageQueue, System, Resume, flag_none}
use star_struck.Messages.Handlers.{
  send_message, jam_message, receive_message, destroy_message_queue,
}
use star_struck.Messages.Contents.{contents, window, IsValid}
use star_struck.Messages.Returns.{IsRunning, Returns, Waiters, waiting, idle}
use star_struck.Messages.Calls.{send_message-append, jam_message-cons, receive_message-uncons}
use star_struck.Messages.Destroy.{destroy_message_queue-knot}
use star_struck.Messages.Waiting.{MayWait, send_message-resumed, receive_message-resumed}

-- A queue of four places at 0x100 that holds one message, the word at 0x10c.
abbrev queue : MessageQueue
queue = record { process_id = 7; used = 1; first = 3; queue_size = 4; queue_heap = 0x100 }

abbrev system : System
system = record {
  kernel = kernel;
  queues = λ m. queue;
  memory = λ a. if a == 0x10c then 77 else 0;
  flushed = [];
}

queue-IsValid : IsValid queue
queue-IsValid = record { bounded = omega arith; started = omega arith; mapped = omega arith }

system-IsRunning : IsRunning kernel (3 ∷ [])
system-IsRunning = record { scheduled = kernel-IsScheduled; top = kernel-IsTop }

receiver : Waiters kernel (receive_queue 0) (3 ∷ [])
receiver = waiting 4 [] (refl, omega arith, refl, refl) refl (omega arith) (omega arith)

send_message-append_example :
    Returns success none 0 (contents system 0 ++ (5 ∷ [])) (send_message (pos 0) 5 1 [] system)
send_message-append_example =
    send_message-append system 0 5 1 (3 ∷ []) [] (omega arith) (omega arith) refl queue-IsValid
      (omega arith) system-IsRunning receiver

jam_message-cons_example :
    Returns success none 0 (5 ∷ contents system 0) (jam_message (pos 0) 5 1 [] system)
jam_message-cons_example =
    jam_message-cons system 0 5 1 (3 ∷ []) [] (omega arith) (omega arith) refl queue-IsValid
      (omega arith) system-IsRunning receiver

receive_message-uncons_example :
    Returns success (some 77) 0 [] (receive_message (pos 0) (pos 0) true 1 [] system)
unfolding window
receive_message-uncons_example =
    receive_message-uncons system 0 1 0 77 true [] (3 ∷ []) [] (omega arith) (omega arith) refl
      queue-IsValid refl system-IsRunning (idle refl) (omega arith)

-- The same system with a full queue, and with an empty one.
abbrev full_system : System
full_system = record system { queues = λ m. record queue { used = 4 } }

abbrev empty_system : System
empty_system = record system { queues = λ m. record queue { used = 0 } }

abbrev woken : Resume
woken = record { value = pos 0; system = system }

abbrev stopped : Resume
stopped = record { value = negsuc 2; system = system }

may_send : MayWait kernel (send_queue 0) 3 [] []
may_send = record {
  scheduled = kernel-IsScheduled;
  holds = refl;
  fresh = refl;
  room = omega arith;
  apart = λ t m. refl;
}

may_receive : MayWait kernel (receive_queue 0) 3 [] (4 ∷ [])
may_receive = record {
  scheduled = kernel-IsScheduled;
  holds = (refl, omega arith, refl, refl);
  fresh = refl;
  room = omega arith;
  apart = λ t m. ground arith;
}

send_message-resumed_example :
    Returns success none 0
      (contents system 0 ++ (5 ∷ []))
      (send_message (pos 0) 5 flag_none (woken ∷ []) full_system)
send_message-resumed_example =
    send_message-resumed full_system 0 5 3 [] [] (omega arith) refl (omega arith) may_send woken []
      (3 ∷ []) refl queue-IsValid (omega arith) system-IsRunning receiver

receive_message-resumed_example :
    Returns success
      (some 77)
      0
      []
      (receive_message (pos 0) (pos 0) true flag_none (woken ∷ []) empty_system)
unfolding window
receive_message-resumed_example =
    receive_message-resumed empty_system 0 0 3 true [] (4 ∷ []) (omega arith) refl refl may_receive
      woken [] 77 [] (3 ∷ []) refl queue-IsValid refl system-IsRunning (idle refl) (omega arith)

-- The system behind a first wake-up of a queue without waiters.
abbrev knotted_kernel : Kernel
knotted_kernel = record kernel {
  links = λ c. if c == next_cell starting_state then starting_state else kernel.links c;
}

abbrev knotted_system : System
knotted_system = record system { kernel = knotted_kernel }

knotted-IsRunning : IsRunning knotted_kernel (3 ∷ [])
knotted-IsRunning = record {
  scheduled = record {
    queue = (refl, omega arith, refl, refl);
    ordered = (tt, tt);
    current = omega arith;
    apart = refl;
    room = omega arith;
    floor = kernel-IsScheduled.floor;
  };
  top = refl;
}

destroy_message_queue-knot_example : destroy_message_queue 1000 (pos 0) [] knotted_system ≡ hang
destroy_message_queue-knot_example =
    destroy_message_queue-knot 1000 knotted_system 0 (3 ∷ []) [] (omega arith) refl refl refl
      knotted-IsRunning
