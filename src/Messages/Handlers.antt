-- ===== src/Messages/Handlers.antt =====
-- The calls of kernel/source/messaging/messageQueue.c: their tests, and the transfers behind them.
-- `check` is the verdict of `CheckMemoryPointer` of kernel/source/memory/memory.c.
use star_struck.Base.{
  ℕ, zero, suc, ◌+◌, ◌||◌, List, [], ◌∷◌, Bool, not, Option, none, some, ℤ, pos, negsuc, lt_int,
  ltb, leb, ◌==◌, if◌then◌else◌, update, Run, ok, fault, hang, ◌>>=◌,
}
use star_struck.Threads.State.{null, starting_state, receive_queue, send_queue, write_link}
use star_struck.Threads.Schedule.{unblock_thread}
use star_struck.Threads.Syscalls.{success, ipc_eacces, ipc_eintr, ipc_einval, ipc_emax, process_of}
use star_struck.Messages.State.{
  System, Resume, Outcome, finished, blocked, max_message_queues, flag_invalid, set_queue,
}
use star_struck.Messages.Transfer.{
  send_message_to_queue, jam_message_in_queue, receive_message_from_queue,
}

-- The process of the running thread.
abbrev pub caller : System → ℕ
caller s = process_of s.kernel s.kernel.current

abbrev pub owned_by_caller : ℕ → System → Bool
owned_by_caller m s = (s.queues m).process_id == caller s

-- The scan for a free queue: `n` rounds are left from `i` on.
unfoldable pub find_free_queue : ℕ → ℕ → System → Option ℕ
find_free_queue zero i s = none
find_free_queue (suc n) i s =
    let rest = find_free_queue n (i + 1) s in if (s.queues i).queue_size == 0 then some i else rest

unfoldable pub opened : ℕ → ℕ → ℕ → System → System
opened m heap number s =
    let k1 = write_link s.kernel (receive_queue m) starting_state in
    let k2 = write_link k1 (send_queue m) starting_state in
    record s {
      kernel = k2;
      queues = update s.queues m (record {
        process_id = caller s;
        used = 0;
        first = 0;
        queue_size = number;
        queue_heap = heap;
      });
    }

unfoldable pub create_message_queue : ℤ → ℕ → ℕ → System → ℤ × System
unfolding find_free_queue opened
create_message_queue check heap number s =
    if (heap == null) || lt_int check (pos 0)
    then (ipc_einval, s)
    else elim (find_free_queue max_message_queues 0 s) [
      | none ↦ (ipc_emax, s)
      | some m ↦ (pos m, opened m heap number s)
    ]

unfoldable pub jam_message : ℤ → ℕ → ℕ → List Resume → System → Run Outcome
jam_message (negsuc _) message flags rs s = ok (finished ipc_einval none s)
jam_message (pos m) message flags rs s =
    if leb max_message_queues m || ltb flag_invalid flags
    then ok (finished ipc_einval none s)
    else if not (owned_by_caller m s)
    then ok (finished ipc_eacces none s)
    else jam_message_in_queue m message flags rs s

unfoldable pub send_message : ℤ → ℕ → ℕ → List Resume → System → Run Outcome
send_message (negsuc _) message flags rs s = ok (finished ipc_einval none s)
send_message (pos m) message flags rs s =
    if leb max_message_queues m || ltb flag_invalid flags
    then ok (finished ipc_einval none s)
    else if not (owned_by_caller m s)
    then ok (finished ipc_eacces none s)
    else send_message_to_queue (some m) message flags rs s

unfoldable pub receive_message : ℤ → ℤ → Bool → ℕ → List Resume → System → Run Outcome
receive_message check (negsuc _) wanted flags rs s = ok (finished ipc_einval none s)
receive_message check (pos m) wanted flags rs s =
    if leb max_message_queues m || leb flag_invalid flags
    then ok (finished ipc_einval none s)
    else if lt_int check (pos 0)
    then ok (finished check none s)
    else if not (owned_by_caller m s)
    then ok (finished ipc_eacces none s)
    else receive_message_from_queue (some m) wanted flags rs s

unfoldable pub send_message_unsafe : ℤ → ℕ → ℕ → List Resume → System → Run Outcome
send_message_unsafe (negsuc _) message flags rs s = ok (finished ipc_einval none s)
send_message_unsafe (pos m) message flags rs s =
    if leb max_message_queues m || leb flag_invalid flags
    then ok (finished ipc_einval none s)
    else send_message_to_queue (some m) message flags rs s

unfoldable pub receive_message_unsafe : ℤ → Bool → ℕ → List Resume → System → Run Outcome
receive_message_unsafe (negsuc _) wanted flags rs s = ok (finished ipc_einval none s)
receive_message_unsafe (pos m) wanted flags rs s =
    if leb max_message_queues m || leb flag_invalid flags
    then ok (finished ipc_einval none s)
    else receive_message_from_queue (some m) wanted flags rs s

-- The system in which the running thread goes on behind an `UnblockThread`: the one that it left,
-- or, if it had to give up the processor, that of the next resumption (`none` for no more).
pub data Continued : Type 0 where
  running : List Resume → System → Continued
  waiting : System → Continued

abbrev pub continue_from : ℕ → List Resume → System → Continued
continue_from thread rs s =
    if s.kernel.current == thread
    then running rs s
    else elim rs [ [] ↦ waiting s | r ∷ rest ↦ running rest r.system ]

-- `while (queue.NextThread != NULL) UnblockThread(queue, IPC_EINTR)`, on fuel.
unfoldable pub drain : ℕ → ℕ → List Resume → System → Run Continued
drain zero queue rs s = hang
drain (suc fuel) queue rs s =
    if s.kernel.links queue == null
    then ok (running rs s)
    else unblock_thread queue ipc_eintr s.kernel >>= λ k1.
        elim (continue_from s.kernel.current rs (record s { kernel = k1 })) [
          | running rest s1 ↦ drain fuel queue rest s1
          | waiting s1 ↦ ok (waiting s1)
        ]

unfoldable pub destroy_message_queue : ℕ → ℤ → List Resume → System → Run Outcome
unfolding drain
destroy_message_queue fuel (negsuc _) rs s = ok (finished ipc_einval none s)
destroy_message_queue fuel (pos m) rs s =
    if ltb max_message_queues m
    then ok (finished ipc_einval none s)
    else if m == max_message_queues
    then fault
    else if not (owned_by_caller m s)
    then ok (finished ipc_eacces none s)
    else drain fuel (send_queue m) rs s >>= elim [
      | waiting s1 ↦ ok (blocked s1)
      | running rs1 s1 ↦ drain fuel (receive_queue m) rs1 s1 >>= elim [
        | waiting s2 ↦ ok (blocked s2)
        | running rs2 s2 ↦
            ok (finished success none (set_queue s2 m (record (s2.queues m) { queue_size = 0 })))
      ]
    ]
