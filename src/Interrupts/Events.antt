-- ===== src/Interrupts/Events.antt =====
-- `RegisterEventHandler`, `UnregisterEventHandler`, `EnqueueEventHandler` and the calls that clear and
-- enable an event, in kernel/source/interrupt/irq.c (kernel build, without MIOS).
use star_struck.Base.{
  ℕ, Bool, not, Option, none, some, ℤ, pos, negsuc, leb, ◌==◌, ◌||◌, if◌then◌else◌, update, add_u32,
  sub_u32, Run, ok, fault, ◌>>=◌,
}
use star_struck.Threads.State.{Kernel, null, next, scheduler_queue, receive_queue}
use star_struck.Threads.Queue.{pop_thread, push_thread}
use star_struck.Threads.Schedule.{resume_with}
use star_struck.Threads.Syscalls.{success, ipc_eacces, ipc_einval}
use star_struck.Messages.State.{System, max_message_queues, slot, set_queue}
use star_struck.Messages.Handlers.{caller, owned_by_caller}
use star_struck.Interrupts.State.{
  max_devices, irq_ehci, irq_ohci0, irq_ohci1, irq_sdhc, irq_wifi, irq_gpio1, irq_reset, irq_di,
  irq_ipc, flag_of, write32, set32, hw_armirqflag, hw_armirqmask, hw_gpio1intflag, Interrupts,
  access, set_handler,
}

abbrev pub clear_and_enable_event_set_flags : ℕ → Interrupts → Interrupts
clear_and_enable_event_set_flags flags i =
    access (set32 hw_armirqmask flags) (access (write32 hw_armirqflag flags) i)

-- The process that may clear an event, or none for an event that has no case.
abbrev pub owner_of : ℕ → Option ℕ
owner_of inter =
    if inter == irq_ehci
    then some 6
    else if inter == irq_ohci0
    then some 4
    else if inter == irq_ohci1
    then some 5
    else if inter == irq_sdhc
    then some 7
    else if inter == irq_wifi
    then some 11
    else if (inter == irq_gpio1) || (inter == irq_reset)
    then some 14
    else if inter == irq_di
    then some 3
    else if inter == irq_ipc
    then some 0
    else none

unfoldable pub clear_and_enable_event : ℕ → Interrupts → ℤ × Interrupts
clear_and_enable_event inter i = elim (owner_of inter) [
  | none ↦ (ipc_einval, i)
  | some pid ↦ if not (caller i.system == pid) then (ipc_eacces, i) else (
    success,
    clear_and_enable_event_set_flags (flag_of inter)
        (if inter == irq_gpio1 then access (write32 hw_gpio1intflag 1) i else i),
  )
]

unfoldable pub clear_and_enable_sd_interrupt : ℕ → Interrupts → ℤ × Interrupts
clear_and_enable_sd_interrupt sdio i =
    clear_and_enable_event (if sdio == 0 then irq_sdhc else irq_wifi) i

unfoldable pub clear_and_enable_di_interrupt : Interrupts → ℤ × Interrupts
clear_and_enable_di_interrupt i = clear_and_enable_event irq_di i

unfoldable pub clear_and_enable_ipc_interrupt : Interrupts → ℤ × Interrupts
clear_and_enable_ipc_interrupt i = clear_and_enable_event irq_ipc i

unfoldable pub register_event_handler : ℕ → ℤ → ℕ → Interrupts → ℤ × Interrupts
register_event_handler device (negsuc _) message i = (ipc_einval, i)
register_event_handler device (pos m) message i =
    if leb max_devices device || leb max_message_queues m
    then (ipc_einval, i)
    else if not (owned_by_caller m i.system)
    then (ipc_eacces, i)
    else (
      success,
      set_handler device
          (record { queue = some m; message = message; handler_process = caller i.system }) i,
    )

unfoldable pub unregister_event_handler : ℕ → Interrupts → ℤ × Interrupts
unregister_event_handler device i =
    if leb max_devices device
    then (ipc_einval, i)
    else if not ((i.handlers device).handler_process == caller i.system)
    then (ipc_eacces, i)
    else (success, set_handler device (record (i.handlers device) { queue = none; message = 0 }) i)

-- `Used + First`, taken round.
abbrev pub message_index : ℕ → ℕ → ℕ → ℕ
message_index used first queue_size =
    let index = add_u32 used first in
    if leb queue_size index then sub_u32 index queue_size else index

-- The message of an event behind the others.
unfoldable pub post_message : ℕ → ℕ → System → System
post_message m message s =
    let q = s.queues m in
    let address = slot q (message_index q.used q.first q.queue_size) in
    set_queue (record s { memory = update s.memory address message }) m
      (record q { used = add_u32 q.used 1 })

-- Wakes the first receiver, if there is one, and does not switch.
unfoldable pub wake_handler : ℕ → Kernel → Run Kernel
wake_handler m k =
    let head = k.links (receive_queue m) in
    if head == null then fault else if next k head == null then ok k else (do
      (t, k1) ← pop_thread (receive_queue m) k
      push_thread scheduler_queue t (resume_with t success k1))

abbrev pub is_full : ℕ → System → Bool
is_full m s = leb (s.queues m).queue_size (s.queues m).used

abbrev pub enqueue : ℕ → ℕ → Interrupts → Run Interrupts
enqueue m message i =
    if is_full m i.system
    then ok i
    else (let s = post_message m message i.system in
        do k ← wake_handler m s.kernel; ok (record i { system = record s { kernel = k } }))

abbrev pub enqueue_to : Option ℕ → ℕ → Interrupts → Run Interrupts
enqueue_to none message i = ok i
enqueue_to (some m) message i = enqueue m message i

unfoldable pub enqueue_event_handler : ℕ → Interrupts → Run Interrupts
enqueue_event_handler device i = enqueue_to (i.handlers device).queue (i.handlers device).message i
