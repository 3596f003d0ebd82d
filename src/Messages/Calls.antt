-- ===== src/Messages/Calls.antt =====
-- The calls of kernel/source/messaging/messageQueue.c against a sequence of messages, in a kernel
-- whose scheduler is in order.
use star_struck.Base.{
  ℕ, suc, sym, ◌||◌, ◌≤◌, ◌<◌, ◌≡◌, ◌≢◌, ap, ◌∙◌, List, [], ◌∷◌, ◌++◌, Bool, true, false, none,
  some, pos, leb, ltb, lt_int, if◌then◌else◌, length, arith,
}
use star_struck.Threads.State.{null, receive_queue, send_queue}
use star_struck.Threads.Syscalls.{success}
use star_struck.Messages.State.{System, Resume, max_message_queues, flag_invalid}
use star_struck.Messages.Transfer.{
  has_space, has_message, take_message, first_message, send_message_to_queue, jam_message_in_queue,
  receive_message_from_queue,
}
use star_struck.Messages.Contents.{contents, IsValid, length-window}
use star_struck.Messages.Ring.{take_message-cons}
use star_struck.Messages.Handlers.{send_message, jam_message, receive_message, owned_by_caller}
use star_struck.Messages.Returns.{
  Waiters, IsRunning, Returns, append_message-Returns, prepend_message-Returns,
  take_message-Returns,
}

-- Where a message queue of the caller's process is valid and has a free place, `SendMessage`
-- returns 0 and the message stands behind the others. The queue stays valid, the scheduler stays in
-- order, and no ready thread has a higher priority than the running one.
pub send_message-append :
    (s : System) (m message flags : ℕ) (rs : List ℕ) (later : List Resume)
    → m < max_message_queues
    → flags ≤ flag_invalid
    → owned_by_caller m s ≡ true
    → IsValid (s.queues m)
    → (s.queues m).used < (s.queues m).queue_size
    → IsRunning s.kernel rs
    → Waiters s.kernel (receive_queue m) rs
    → Returns success none m
        (contents s m ++ (message ∷ []))
        (send_message (pos m) message flags later s)
send_message-append s m message flags rs later hm hf own v space run waiters =
    let free : has_space (s.queues m) ≡ true = ground arith in
    let known : (leb max_message_queues m || ltb flag_invalid flags) ≡ false = ground arith in
    unfold send_message send_message_to_queue in
    rw (known, own, free) (append_message-Returns s m rs run v message free waiters)

-- Where a message queue of the caller's process is valid and has a free place, `JamMessage` returns
-- 0 and the message stands before the others. The queue stays valid, the scheduler stays in order,
-- and no ready thread has a higher priority than the running one.
pub jam_message-cons :
    (s : System) (m message flags : ℕ) (rs : List ℕ) (later : List Resume)
    → m < max_message_queues
    → flags ≤ flag_invalid
    → owned_by_caller m s ≡ true
    → IsValid (s.queues m)
    → (s.queues m).used < (s.queues m).queue_size
    → IsRunning s.kernel rs
    → Waiters s.kernel (receive_queue m) rs
    → Returns success none m (message ∷ contents s m) (jam_message (pos m) message flags later s)
jam_message-cons s m message flags rs later hm hf own v space run waiters =
    let free : has_space (s.queues m) ≡ true = ground arith in
    let known : (leb max_message_queues m || ltb flag_invalid flags) ≡ false = ground arith in
    unfold jam_message jam_message_in_queue in
    rw (known, own, free) (prepend_message-Returns s m rs run v message free waiters)

-- Where a message queue of the caller's process is valid and holds a message, `ReceiveMessage`
-- returns 0 and hands the first message over, if the caller wants it, and the others stay in order.
-- The queue stays valid, the scheduler stays in order, and no ready thread has a higher priority
-- than the running one.
pub receive_message-uncons :
    (s : System) (m flags check x : ℕ) (wanted : Bool) (xs rs : List ℕ) (later : List Resume)
    → m < max_message_queues
    → flags < flag_invalid
    → owned_by_caller m s ≡ true
    → IsValid (s.queues m)
    → contents s m ≡ x ∷ xs
    → IsRunning s.kernel rs
    → Waiters s.kernel (send_queue m) rs
    → s.kernel.links (send_queue m) ≢ null
    → Returns success
        (if wanted then some x else none)
        m
        xs
        (receive_message (pos check) (pos m) wanted flags later s)
receive_message-uncons s m flags check x wanted xs rs later hm hf own v h run waiters ne =
    let count : suc (length xs) ≡ (s.queues m).used =
      ap length (sym h)
      ∙ length-window s.memory (s.queues m).queue_heap (s.queues m).queue_size (s.queues m).first
          (s.queues m).used in
    let left : has_message (s.queues m) ≡ true = ground arith in
    let known : (leb max_message_queues m || leb flag_invalid flags) ≡ false = ground arith in
    let passed : lt_int (pos check) (pos 0) ≡ false = ground arith in
    let taken = (take_message-cons s m v left).0 in
    let first : first_message m s ≡ x = cc in
    let rest : contents (take_message m s) m ≡ xs = cc in
    unfold receive_message receive_message_from_queue in
    rw (known, passed, own, left, first)
      (rw rest at
        (take_message-Returns s m rs run v (if wanted then some x else none) left waiters ne))
