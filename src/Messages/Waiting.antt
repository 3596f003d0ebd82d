-- ===== src/Messages/Waiting.antt =====
-- The calls of kernel/source/messaging/messageQueue.c that have to wait.
use star_struck.Base.{
  ℕ, suc, ◌%◌, ◌<◌, ◌≤◌, ◌≡◌, ◌≢◌, refl, ap, sym, ◌∙◌, Bool, true, false, leb, ◌==◌, pos, lt_int,
  eq_int, List, [], ◌∷◌, ◌++◌, has, length, none, some, if◌then◌else◌, arith, ok,
}
use star_struck.Threads.State.{
  Kernel, ThreadState, null, scheduler_queue, receive_queue, send_queue, set_state,
}
use star_struck.Threads.Queue.{walk_fuel}
use star_struck.Threads.Chain.{Holds}
use star_struck.Threads.Push.{insert}
use star_struck.Threads.Order.{priority_of, insert_cong}
use star_struck.Threads.Schedule.{yield_current_thread}
use star_struck.Threads.Switch.{IsScheduled}
use star_struck.Threads.Start.{state-IsScheduled}
use star_struck.Threads.Block.{Disjoint, yield_current_thread-Waits}
use star_struck.Threads.Syscalls.{success}
use star_struck.Messages.State.{System, Resume, finished, blocked, max_message_queues, flag_none}
use star_struck.Messages.Transfer.{
  has_space, has_message, wait_on, wait_until, send_message_to_queue, receive_message_from_queue,
  take_message, first_message,
}
use star_struck.Messages.Handlers.{send_message, receive_message, owned_by_caller}
use star_struck.Messages.Contents.{contents, IsValid, length-window}
use star_struck.Messages.Ring.{take_message-cons}
use star_struck.Messages.Returns.{
  IsRunning, Returns, Waiters, append_message-Returns, take_message-Returns,
}

-- The running thread may wait on the queue that holds `xs`, and `y` is the first ready thread.
pub record MayWait (k : Kernel) (queue y : ℕ) (ys xs : List ℕ) : Type 0 where
  pub scheduled : IsScheduled k (y ∷ ys)
  pub holds : Holds k.links queue xs
  pub fresh : has k.current xs ≡ false
  pub room : length xs < walk_fuel
  pub apart : Disjoint (y ∷ ys) xs

-- The running thread stands in the queue, and `y` runs.
pub record IsWaiting (k : Kernel) (queue y : ℕ) (ys xs : List ℕ) (g : Kernel) : Type 0 where
  pub current : g.current ≡ y
  pub scheduled : IsScheduled g ys
  pub holds : Holds g.links queue (insert k (priority_of k k.current) k.current xs)

insert-state :
    (k : Kernel) (t : ℕ) (state : ThreadState) (xs : List ℕ)
    → insert (set_state k t state) (priority_of (set_state k t state) t) t xs
      ≡ insert k (priority_of k t) t xs
insert-state k t state xs =
    let same : (u : ℕ) → priority_of (set_state k t state) u ≡ priority_of k u =
      λ u. ground arith in
    insert_cong k (set_state k t state) (priority_of (set_state k t state) t) t xs same
    ∙ ap (λ a. insert k a t xs) (same t)

wait_on-IsWaiting :
    (s : System) (queue y : ℕ) (ys xs : List ℕ)
    → queue % 2 ≡ 1
    → queue ≢ scheduler_queue
    → MayWait s.kernel queue y ys xs
    → (g : Kernel) × (wait_on queue s ≡ ok (record s { kernel = g }))
      × IsWaiting s.kernel queue y ys xs g
wait_on-IsWaiting s queue y ys xs q other w =
    let k = s.kernel in
    let k1 = set_state k k.current ThreadState.waiting in
    let (g, yields, current, scheduled, holds) =
      yield_current_thread-Waits k1 queue y xs ys q other
        (state-IsScheduled k k.current ThreadState.waiting (y ∷ ys) w.scheduled) w.holds w.fresh
        w.room w.apart in
    (
      g,
      waits s queue g (not_null k.current (w.scheduled.current)) yields,
      record {
        current = current;
        scheduled = scheduled;
        holds = rw (insert-state k k.current ThreadState.waiting xs) at holds;
      },
    )
  where
    not_null : (t : ℕ) → 1 < t → (t == null) ≡ false
    not_null t h = ground arith

    waits :
        (s : System) (queue : ℕ) (g : Kernel)
        → (s.kernel.current == null) ≡ false
        → yield_current_thread queue (set_state s.kernel s.kernel.current ThreadState.waiting)
          ≡ ok g
        → wait_on queue s ≡ ok (record s { kernel = g })
    waits s queue g there runs = unfold wait_on in rw (there, runs) refl

module _ (s : System) (m message y : ℕ) (ys xs : List ℕ) (known : m < max_message_queues)
    (own : owned_by_caller m s ≡ true) (full : (s.queues m).queue_size ≤ (s.queues m).used)
    (may : MayWait s.kernel (send_queue m) y ys xs) where
  -- A sender that may wait, to a full message queue of its process, waits: it stands in the send queue by its
  -- priority, the first ready thread runs, the scheduler stays in order, and nothing else changes.
  send_message-IsWaiting :
      (g : Kernel) × (send_message (pos m) message flag_none [] s
        ≡ ok (blocked (record s { kernel = g })))
      × IsWaiting s.kernel (send_queue m) y ys xs g
  unfolding send_message send_message_to_queue wait_until
  send_message-IsWaiting =
      let (g, waits, w) =
        wait_on-IsWaiting s (send_queue m) y ys xs (omega arith) (omega arith) may in
      let no_space : has_space (s.queues m) ≡ false = ground arith in
      let in_range : leb max_message_queues m ≡ false = ground arith in
      (g, rw (in_range, own, no_space, waits) refl, w)

  -- A sender that waited, and is resumed with 0 while there is a free place in the valid queue, gets
  -- 0 from `SendMessage`, and its message stands behind the others. The queue stays valid, the
  -- scheduler stays in order, and no ready thread has a higher priority than the running one.
  pub send_message-resumed :
      (r : Resume) (later : List Resume) (rs : List ℕ)
      → eq_int r.value success ≡ true
      → IsValid (r.system.queues m)
      → (r.system.queues m).used < (r.system.queues m).queue_size
      → IsRunning r.system.kernel rs
      → Waiters r.system.kernel (receive_queue m) rs
      → Returns success none m
          (contents r.system m ++ (message ∷ []))
          (send_message (pos m) message flag_none (r ∷ later) s)
  unfolding send_message send_message_to_queue wait_until
  send_message-resumed r later rs woken v space run waiters =
      let (g, waits, w) =
        wait_on-IsWaiting s (send_queue m) y ys xs (omega arith) (omega arith) may in
      let no_space : has_space (s.queues m) ≡ false = ground arith in
      let free : has_space (r.system.queues m) ≡ true = ground arith in
      let in_range : leb max_message_queues m ≡ false = ground arith in
      rw (in_range, own, no_space, waits, woken, free)
        (append_message-Returns r.system m rs run v message free waiters)

  -- A sender that waited, and is resumed with a value other than 0, gets this value from
  -- `SendMessage`, and the system stays as the other threads left it.
  send_message-interrupted :
      (r : Resume) (later : List Resume)
      → eq_int r.value success ≡ false
      → send_message (pos m) message flag_none (r ∷ later) s ≡ ok (finished r.value none r.system)
  unfolding send_message send_message_to_queue wait_until
  send_message-interrupted r later other =
      let (g, waits, w) =
        wait_on-IsWaiting s (send_queue m) y ys xs (omega arith) (omega arith) may in
      let no_space : has_space (s.queues m) ≡ false = ground arith in
      let in_range : leb max_message_queues m ≡ false = ground arith in
      rw (in_range, own, no_space, waits, other) refl

module _ (s : System) (m check y : ℕ) (wanted : Bool) (ys xs : List ℕ)
    (known : m < max_message_queues) (own : owned_by_caller m s ≡ true)
    (empty : (s.queues m).used ≡ 0) (may : MayWait s.kernel (receive_queue m) y ys xs) where
  -- A receiver that may wait, from an empty message queue of its process, waits: it stands in the
  -- receive queue by its priority, the first ready thread runs, the scheduler stays in order, and
  -- nothing else changes.
  receive_message-IsWaiting :
      (g : Kernel) × (receive_message (pos check) (pos m) wanted flag_none [] s
        ≡ ok (blocked (record s { kernel = g })))
      × IsWaiting s.kernel (receive_queue m) y ys xs g
  unfolding receive_message receive_message_from_queue wait_until
  receive_message-IsWaiting =
      let (g, waits, w) =
        wait_on-IsWaiting s (receive_queue m) y ys xs (omega arith) (omega arith) may in
      let checked : lt_int (pos check) (pos 0) ≡ false = ground arith in
      let none_left : has_message (s.queues m) ≡ false = ground arith in
      let in_range : leb max_message_queues m ≡ false = ground arith in
      (g, rw (in_range, checked, own, none_left, waits) refl, w)

  -- A receiver that waited, and is resumed with 0 while the valid queue holds a message, gets 0 from
  -- `ReceiveMessage` and the first message, if it wants one, and the others stay in order. The
  -- queue stays valid, the scheduler stays in order, and no ready thread has a higher priority
  -- than the running one.
  pub receive_message-resumed :
      (r : Resume) (later : List Resume) (x : ℕ) (rest rs : List ℕ)
      → eq_int r.value success ≡ true
      → IsValid (r.system.queues m)
      → contents r.system m ≡ x ∷ rest
      → IsRunning r.system.kernel rs
      → Waiters r.system.kernel (send_queue m) rs
      → r.system.kernel.links (send_queue m) ≢ null
      → Returns success
          (if wanted then some x else none)
          m
          rest
          (receive_message (pos check) (pos m) wanted flag_none (r ∷ later) s)
  unfolding receive_message receive_message_from_queue wait_until
  receive_message-resumed r later x rest rs woken v h run waiters ne =
      let (g, waits, w) =
        wait_on-IsWaiting s (receive_queue m) y ys xs (omega arith) (omega arith) may in
      let checked : lt_int (pos check) (pos 0) ≡ false = ground arith in
      let none_left : has_message (s.queues m) ≡ false = ground arith in
      let count : suc (length rest) ≡ (r.system.queues m).used =
        ap length (sym h)
        ∙ length-window r.system.memory (r.system.queues m).queue_heap
            (r.system.queues m).queue_size (r.system.queues m).first (r.system.queues m).used in
      let there : has_message (r.system.queues m) ≡ true = ground arith in
      let in_range : leb max_message_queues m ≡ false = ground arith in
      let taken = (take_message-cons r.system m v there).0 in
      let first : first_message m r.system ≡ x = cc in
      let others : contents (take_message m r.system) m ≡ rest = cc in
      rw (in_range, checked, own, none_left, waits, woken, there, first)
        (rw others at (
          take_message-Returns r.system m rs run v (if wanted then some x else none) there waiters
            ne))

  -- A receiver that waited, and is resumed with a value other than 0, gets this value from
  -- `ReceiveMessage`, and the system stays as the other threads left it.
  receive_message-interrupted :
      (r : Resume) (later : List Resume)
      → eq_int r.value success ≡ false
      → receive_message (pos check) (pos m) wanted flag_none (r ∷ later) s
        ≡ ok (finished r.value none r.system)
  unfolding receive_message receive_message_from_queue wait_until
  receive_message-interrupted r later other =
      let (g, waits, w) =
        wait_on-IsWaiting s (receive_queue m) y ys xs (omega arith) (omega arith) may in
      let checked : lt_int (pos check) (pos 0) ≡ false = ground arith in
      let none_left : has_message (s.queues m) ≡ false = ground arith in
      let in_range : leb max_message_queues m ≡ false = ground arith in
      rw (in_range, checked, own, none_left, waits, other) refl
