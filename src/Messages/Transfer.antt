-- ===== src/Messages/Transfer.antt =====
-- `SendMessageToQueue`, `ReceiveMessageFromQueue` and the body of `JamMessage` in
-- kernel/source/messaging/messageQueue.c. A wait takes the next entry of a list of resumptions;
-- with none left the call is `blocked`.
use star_struck.Base.{
  ℕ, ◌-◌, List, [], ◌∷◌, Bool, not, Option, none, some, ℤ, negsuc, eq_int, leb, ◌==◌, if◌then◌else◌,
  update, add_u32, sub_u32, Run, ok, fault, ◌>>=◌,
}
use star_struck.Threads.State.{ThreadState, null, next, set_state, receive_queue, send_queue}
use star_struck.Threads.Schedule.{yield_current_thread, unblock_thread}
use star_struck.Threads.Syscalls.{success, ipc_einval, process_of}
use star_struck.Messages.State.{
  MessageQueue, System, Resume, Outcome, finished, blocked, flag_none, slot, set_queue,
}

abbrev pub ipc_equeueempty : ℤ
ipc_equeueempty = negsuc 6

abbrev pub ipc_equeuefull : ℤ
ipc_equeuefull = negsuc 7

-- `CurrentThread->ThreadState = Waiting; YieldCurrentThread(queue)`, up to the switch.
unfoldable pub wait_on : ℕ → System → Run System
wait_on queue s =
    let k = s.kernel in
    if k.current == null then fault else (do
      k1 ← yield_current_thread queue (set_state k k.current ThreadState.waiting)
      ok (record s { kernel = k1 }))

-- Whether a wait may end: a sender waits for a free place, a receiver for a message.
abbrev pub has_space : MessageQueue → Bool
has_space q = not (leb q.queue_size q.used)

abbrev pub has_message : MessageQueue → Bool
has_message q = not (q.used == 0)

pub data Waited : Type 0 where
  awake : System → Waited
  interrupted : ℤ → System → Waited
  asleep : System → Waited

-- Waits on a thread queue at least once, and again until the message queue lets the thread go on.
unfoldable pub wait_until : (MessageQueue → Bool) → ℕ → ℕ → List Resume → System → Run Waited
unfolding wait_on
wait_until may_go queue m [] s = do s1 ← wait_on queue s; ok (asleep s1)
wait_until may_go queue m (r ∷ rs) s =
    let again = wait_until may_go queue m rs r.system in
    wait_on queue s >>= λ _.
    if not (eq_int r.value success)
    then ok (interrupted r.value r.system)
    else if may_go (r.system.queues m)
    then ok (awake r.system)
    else again

-- What follows the wait, or the result of a call that does not come that far.
abbrev pub after_wait : Run Waited → (System → Run Outcome) → Run Outcome
after_wait w go = w >>= elim [
  | awake s ↦ go s
  | interrupted value s ↦ ok (finished value none s)
  | asleep s ↦ ok (blocked s)
]

-- A write to the queue's memory, with domain 0 open for it, and the flush of a range.
unfoldable pub store_message : ℕ → ℕ → ℕ → System → System
store_message address message flush s =
    let k = s.kernel in
    record s {
      kernel = record k { domain_access = process_of k k.current };
      memory = update s.memory address message;
      flushed = (flush, 4) ∷ s.flushed;
    }

-- `if (queue.NextThread != NULL) UnblockThread(queue, 0)`
unfoldable pub wake_receiver : ℕ → System → Run Outcome
wake_receiver m s =
    let k = s.kernel in
    if k.links (receive_queue m) == null then ok (finished success none s) else (do
      k1 ← unblock_thread (receive_queue m) success k
      ok (finished success none (record s { kernel = k1 })))

-- The index behind the last message.
abbrev pub tail_index : MessageQueue → ℕ
tail_index q =
    let i = add_u32 q.first q.used in if leb q.queue_size i then sub_u32 i q.queue_size else i

-- `SendMessageToQueue` behind its wait.
unfoldable pub append_message : ℕ → ℕ → System → System
unfolding store_message
append_message m message s =
    let q = s.queues m in
    let address = slot q (tail_index q) in
    set_queue (store_message address message address s) m (record q { used = add_u32 q.used 1 })

unfoldable pub send_message_to_queue : Option ℕ → ℕ → ℕ → List Resume → System → Run Outcome
unfolding append_message wake_receiver
send_message_to_queue none message flags rs s = ok (finished ipc_einval none s)
send_message_to_queue (some m) message flags rs s =
    let waited = wait_until has_space (send_queue m) m rs s in
    let send = λ (s1 : System). wake_receiver m (append_message m message s1) in
    if has_space (s.queues m)
    then send s
    else if not (flags == flag_none)
    then ok (finished ipc_equeuefull none s)
    else after_wait waited send

-- The index before the first message.
abbrev pub head_index : MessageQueue → ℕ
head_index q = if q.first == 0 then sub_u32 q.queue_size 1 else q.first - 1

-- `JamMessage` behind its wait. The range given to `DCFlushRange` begins at the message itself.
unfoldable pub prepend_message : ℕ → ℕ → System → System
unfolding store_message
prepend_message m message s =
    let q = s.queues m in
    let address = slot q (head_index q) in
    set_queue (store_message address message message s) m
      (record q { first = head_index q; used = add_u32 q.used 1 })

-- The part of `JamMessage` behind its tests of the arguments.
unfoldable pub jam_message_in_queue : ℕ → ℕ → ℕ → List Resume → System → Run Outcome
unfolding prepend_message wake_receiver
jam_message_in_queue m message flags rs s =
    let waited = wait_until has_space (send_queue m) m rs s in
    let jam = λ (s1 : System). wake_receiver m (prepend_message m message s1) in
    if has_space (s.queues m)
    then jam s
    else if not (flags == flag_none)
    then ok (finished ipc_equeuefull none s)
    else after_wait waited jam

-- The index behind the first message.
abbrev pub second_index : MessageQueue → ℕ
second_index q =
    let i = add_u32 q.first 1 in if leb q.queue_size i then sub_u32 i q.queue_size else i

-- `ReceiveMessageFromQueue` behind its wait, up to the sender that it wakes. The pointer for the
-- message is NULL where `wanted` is false.
unfoldable pub take_message : ℕ → System → System
take_message m s =
    let q = s.queues m in
    set_queue s m (record q { first = second_index q; used = sub_u32 q.used 1 })

abbrev pub first_message : ℕ → System → ℕ
first_message m s = let q = s.queues m in s.memory (slot q q.first)

-- `if (queue.NextThread->NextThread != NULL) UnblockThread(queue, 0)`
unfoldable pub wake_sender : ℕ → Option ℕ → System → Run Outcome
wake_sender m message s =
    let k = s.kernel in
    let head = k.links (send_queue m) in
    if head == null
    then fault
    else if next k head == null
    then ok (finished success message s)
    else (do
      k1 ← unblock_thread (send_queue m) success k
      ok (finished success message (record s { kernel = k1 })))

unfoldable pub receive_message_from_queue : Option ℕ → Bool → ℕ → List Resume → System → Run Outcome
unfolding take_message wake_sender
receive_message_from_queue none wanted flags rs s = ok (finished ipc_einval none s)
receive_message_from_queue (some m) wanted flags rs s =
    let waited = wait_until has_message (receive_queue m) m rs s in
    let receive = λ (s1 : System).
      wake_sender m (if wanted then some (first_message m s1) else none) (take_message m s1) in
    if has_message (s.queues m)
    then receive s
    else if not (flags == flag_none)
    then ok (finished ipc_equeueempty none s)
    else after_wait waited receive
