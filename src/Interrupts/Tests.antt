-- ===== src/Interrupts/Tests.antt =====
-- Runs of the interrupt code on a small system.
use star_struck.Base.{
  ◌≡◌, refl, true, false, ok, [], ◌∷◌, ◌++◌, ◌==◌, some, ◌⊎◌, if◌then◌else◌, arith,
}
use star_struck.Threads.Tests.{kernel}
use star_struck.Messages.State.{MessageQueue, System}
use star_struck.Messages.Contents.{contents}
use star_struck.Interrupts.State.{EventHandler, Interrupts, irq_ipc}
use star_struck.Interrupts.Events.{enqueue_event_handler, is_full}
use star_struck.Interrupts.Posted.{CanWake, Posted, woken, enqueue_event_handler-Posted}

-- A queue of four places at 0x100 that holds one message, and the handler of the mailbox.
abbrev queue : MessageQueue
queue = record { process_id = 7; used = 1; first = 3; queue_size = 4; queue_heap = 0x100 }

abbrev system : System
system = record {
  kernel = kernel;
  queues = λ m. queue;
  memory = λ a. if a == 0x10c then 77 else 0;
  flushed = [];
}

abbrev handler : EventHandler
handler = record { queue = some 0; message = 99; handler_process = 7 }

abbrev interrupts : Interrupts
interrupts = record { handlers = λ _. handler; system = system; accesses = [] }

abbrev receiver_waits : CanWake kernel 0 (4 ∷ []) (3 ∷ [])
receiver_waits = record {
  receivers = (refl, omega arith, refl, refl);
  ready = (refl, omega arith, refl, refl);
  last = refl;
  room = omega arith;
  apart = λ t h. ground arith;
  floor = λ t h. ground arith;
}

enqueue_event_handler-Posted_example :
    (g : Interrupts) × (enqueue_event_handler irq_ipc interrupts ≡ ok g)
    × (((is_full 0 system ≡ true) × (g ≡ interrupts))
        ⊎ ((is_full 0 system ≡ false)
            × Posted interrupts g 0
                (contents system 0 ++ (99 ∷ []))
                (woken kernel (4 ∷ []) (3 ∷ []))))
enqueue_event_handler-Posted_example =
    enqueue_event_handler-Posted interrupts irq_ipc 0 (4 ∷ []) (3 ∷ []) refl
      (record { bounded = omega arith; started = omega arith; mapped = omega arith }) receiver_waits
