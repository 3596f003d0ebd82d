-- ===== src/Messages/Returns.antt =====
-- How the calls of kernel/source/messaging/messageQueue.c return in a kernel whose scheduler is in
-- order.
use star_struck.Base.{
  ℕ, ◌+◌, ◌%◌, inl, inr, Bool-cases, ◌<◌, ◌≡◌, ◌≢◌, refl, List, [], ◌∷◌, ◌++◌, true, false, Option,
  none, ℤ, ◌==◌, has, length, arith, Run, ok,
}
use star_struck.Threads.State.{
  Kernel, null, starting_state, scheduler_queue, receive_queue, send_queue, next,
}
use star_struck.Threads.Queue.{walk_fuel}
use star_struck.Threads.Chain.{Holds}
use star_struck.Threads.Switch.{IsScheduled, IsTop, IsScheduled-cong}
use star_struck.Threads.Unblock.{unblock_thread-IsTop}
use star_struck.Threads.UnblockStart.{unblock_start-IsTop}
use star_struck.Threads.Schedule.{unblock_thread}
use star_struck.Threads.Syscalls.{success}
use star_struck.Messages.State.{System, Outcome, finished}
use star_struck.Messages.Transfer.{
  has_space, has_message, append_message, prepend_message, take_message, wake_receiver, wake_sender,
}
use star_struck.Messages.Contents.{contents, IsValid}
use star_struck.Messages.Ring.{append_message-snoc, prepend_message-cons, take_message-cons}

-- What the thread queue of a message queue may lead to: no thread at all, the starting state, or
-- waiting threads that are none of the scheduler's.
pub data Waiters (k : Kernel) (queue : ℕ) (rs : List ℕ) : Type 0 where
  emptied : k.links queue ≡ null → Waiters k queue rs
  idle : k.links queue ≡ starting_state → Waiters k queue rs
  waiting :
      (x : ℕ) (xs : List ℕ)
      → Holds k.links queue (x ∷ xs)
      → has x rs ≡ false
      → x ≢ k.current
      → length rs + 3 < walk_fuel
      → Waiters k queue rs

-- The scheduler is in order, and no ready thread has a higher priority than the running one.
pub record IsRunning (k : Kernel) (rs : List ℕ) : Type 0 where
  pub scheduled : IsScheduled k rs
  pub top : IsTop k

-- A call that has returned a code and a message, in a running kernel, with the messages `after` in
-- the queue.
pub record Returns (code : ℤ) (message : Option ℕ) (m : ℕ) (after : List ℕ) (r : Run Outcome)
    : Type 0 where
  pub result : System
  pub returned : r ≡ ok (finished code message result)
  pub holds : contents result m ≡ after
  pub valid : IsValid (result.queues m)
  pub ready : List ℕ
  pub running : IsRunning result.kernel ready

unblock-IsRunning :
    (k : Kernel) (queue : ℕ) (rs : List ℕ)
    → queue % 2 ≡ 1
    → queue ≢ scheduler_queue
    → IsRunning k rs
    → Waiters k queue rs
    → k.links queue ≢ null
    → (g : Kernel) × (ys : List ℕ) × (unblock_thread queue success k ≡ ok g) × IsRunning g ys
unblock-IsRunning k queue rs q other run (emptied e) ne = absurd (ne e)
unblock-IsRunning k queue rs q other run (idle e) ne =
    let (g, ys, runs, scheduled, top, _) =
      unblock_start-IsTop k queue rs success q other e run.scheduled in
    (g, ys, runs, record { scheduled = scheduled; top = top })
unblock-IsRunning k queue rs q other run (waiting x xs h fresh apart room) ne =
    let (g, ys, runs, scheduled, top, _) =
      unblock_thread-IsTop k queue x xs rs success q other h run.scheduled fresh apart room in
    (g, ys, runs, record { scheduled = scheduled; top = top })

-- The wake-up at the end of a send returns whatever stands on the queue of receivers.
wake_receiver-Returns :
    (s : System) (m : ℕ) (rs : List ℕ)
    → IsRunning s.kernel rs
    → Waiters s.kernel (receive_queue m) rs
    → IsValid (s.queues m)
    → Returns success none m (contents s m) (wake_receiver m s)
unfolding wake_receiver
wake_receiver-Returns s m rs run waiters v =
    elim (Bool-cases (s.kernel.links (receive_queue m) == null)) [
      | inl nobody ↦ record {
        result = s;
        returned = rw nobody;
        holds = refl;
        valid = v;
        ready = rs;
        running = run;
      }
      | inr somebody ↦
          let (g, ys, runs, running) =
            unblock-IsRunning s.kernel (receive_queue m) rs (omega arith) (omega arith) run waiters
              (ground arith) in
          record {
            result = record s { kernel = g };
            returned = rw (somebody, runs);
            holds = refl;
            valid = v;
            ready = ys;
            running = running;
          }
    ]

-- Loading a domain changes nothing of the threads.
abbrev with_domain : ℕ → Kernel → Kernel
with_domain pid k = record k { domain_access = pid }

IsRunning-domain :
    (k : Kernel) (pid : ℕ) (rs : List ℕ) → IsRunning k rs → IsRunning (with_domain pid k) rs
IsRunning-domain k pid rs run = record {
  scheduled = IsScheduled-cong k (with_domain pid k) rs refl refl (λ t. refl) run.scheduled;
  top = run.top;
}

Waiters-domain :
    (k : Kernel) (pid queue : ℕ) (rs : List ℕ)
    → Waiters k queue rs
    → Waiters (with_domain pid k) queue rs
Waiters-domain k pid queue rs (emptied e) = emptied e
Waiters-domain k pid queue rs (idle e) = idle e
Waiters-domain k pid queue rs (waiting x xs h fresh apart room) = waiting x xs h fresh apart room

-- The wake-up at the end of a receive, where the queue of senders leads somewhere.
wake_sender-Returns :
    (s : System) (m : ℕ) (rs : List ℕ) (message : Option ℕ)
    → IsRunning s.kernel rs
    → Waiters s.kernel (send_queue m) rs
    → s.kernel.links (send_queue m) ≢ null
    → IsValid (s.queues m)
    → Returns success message m (contents s m) (wake_sender m message s)
unfolding wake_sender
wake_sender-Returns s m rs message run waiters ne v =
    let head = s.kernel.links (send_queue m) in
    let there : (head == null) ≡ false = ground arith in
    elim (Bool-cases (next s.kernel head == null)) [
      | inl last ↦ record {
        result = s;
        returned = rw (there, last);
        holds = refl;
        valid = v;
        ready = rs;
        running = run;
      }
      | inr linked ↦
          let (g, ys, runs, running) =
            unblock-IsRunning s.kernel (send_queue m) rs (omega arith) (omega arith) run waiters
              ne in
          record {
            result = record s { kernel = g };
            returned = rw (there, linked, runs);
            holds = refl;
            valid = v;
            ready = ys;
            running = running;
          }
    ]

module _ (s : System) (m : ℕ) (rs : List ℕ) (run : IsRunning s.kernel rs)
    (v : IsValid (s.queues m)) where
  -- The process of the running thread, whose domain is loaded behind the write.
  pid : ℕ
  pid = (s.kernel.threads s.kernel.current).process_id

  pub append_message-Returns :
      (message : ℕ)
      → has_space (s.queues m) ≡ true
      → Waiters s.kernel (receive_queue m) rs
      → Returns success none m
          (contents s m ++ (message ∷ []))
          (wake_receiver m (append_message m message s))
  append_message-Returns message space waiters =
      let ring = append_message-snoc s m message v space in
      rw (ring.0) at (
        wake_receiver-Returns (append_message m message s) m rs
          (unfold append_message pid in IsRunning-domain s.kernel pid rs run)
          (unfold append_message pid in Waiters-domain s.kernel pid (receive_queue m) rs waiters)
          ring.1)

  pub prepend_message-Returns :
      (message : ℕ)
      → has_space (s.queues m) ≡ true
      → Waiters s.kernel (receive_queue m) rs
      → Returns success none m
          (message ∷ contents s m)
          (wake_receiver m (prepend_message m message s))
  prepend_message-Returns message space waiters =
      let ring = prepend_message-cons s m message v space in
      rw (ring.0) at (
        wake_receiver-Returns (prepend_message m message s) m rs
          (unfold prepend_message pid in IsRunning-domain s.kernel pid rs run)
          (unfold prepend_message pid in Waiters-domain s.kernel pid (receive_queue m) rs waiters)
          ring.1)

  pub take_message-Returns :
      (message : Option ℕ)
      → has_message (s.queues m) ≡ true
      → Waiters s.kernel (send_queue m) rs
      → s.kernel.links (send_queue m) ≢ null
      → Returns success message m
          (contents (take_message m s) m)
          (wake_sender m message (take_message m s))
  take_message-Returns message left waiters ne =
      wake_sender-Returns (take_message m s) m rs message (unfold take_message in run)
        (unfold take_message in waiters) (unfold take_message in ne)
        (take_message-cons s m v left).1
