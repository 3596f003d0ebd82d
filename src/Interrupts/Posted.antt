-- ===== src/Interrupts/Posted.antt =====
-- `EnqueueEventHandler` of kernel/source/interrupt/irq.c against a sequence of messages and the threads
-- that are ready.
use star_struck.Base.{
  ℕ, ◌<◌, ◌≡◌, refl, sym, ◌∙◌, ap, true, false, Bool-cases, ◌⊎◌, inl, inr, List, [], ◌∷◌, ◌++◌, has,
  length, lt_int, some, ◌==◌, update, add_u32, arith, ok,
}
use star_struck.Threads.State.{
  Kernel, null, starting_state, scheduler_queue, receive_queue, next, write_link,
}
use star_struck.Threads.Queue.{walk_fuel}
use star_struck.Threads.Chain.{Holds, IsQueue, Chain, Apart-queue}
use star_struck.Threads.Push.{insert, push_thread-Pushed}
use star_struck.Threads.Pop.{pop_thread-cons, Chain-update}
use star_struck.Threads.Schedule.{resume_with}
use star_struck.Threads.Order.{SamePriorities, insert_cong}
use star_struck.Threads.Syscalls.{success}
use star_struck.Messages.State.{System, slot, set_queue}
use star_struck.Messages.Transfer.{has_space, tail_index, append_message, store_message}
use star_struck.Messages.Contents.{contents, IsValid}
use star_struck.Messages.Ring.{append_message-snoc}
use star_struck.Interrupts.State.{Interrupts}
use star_struck.Interrupts.Events.{
  post_message, wake_handler, enqueue, is_full, enqueue_to, enqueue_event_handler, message_index,
}

-- The receivers `xs` and the ready threads `rs`, with room for one more that is none of them.
pub record CanWake (k : Kernel) (m : ℕ) (xs rs : List ℕ) : Type 0 where
  pub receivers : Holds k.links (receive_queue m) xs
  pub ready : Holds k.links scheduler_queue rs
  pub last : next k starting_state ≡ null
  pub room : length rs < walk_fuel
  pub apart : (t : ℕ) → has t xs ≡ true → has t rs ≡ false
  pub floor :
      (t : ℕ)
      → has t xs ≡ true
      → lt_int (k.threads t).priority (k.threads starting_state).priority ≡ false

-- The ready threads behind the wake-up: the first receiver has joined them.
abbrev pub woken : Kernel → List ℕ → List ℕ → List ℕ
woken k [] rs = rs
woken k (x ∷ xs) rs = insert k (k.threads x).priority x rs

idle_wakes :
    (m : ℕ) (k : Kernel) (rs : List ℕ)
    → CanWake k m [] rs
    → (g : Kernel) × (wake_handler m k ≡ ok g) × Holds g.links scheduler_queue rs
unfolding wake_handler
idle_wakes m k rs c =
    let head : k.links (receive_queue m) ≡ starting_state = c.receivers in
    let last = c.last in (k, rw (head, last) refl, c.ready)

Chain-ne-null : (l : ℕ → ℕ) (t : ℕ) (xs : List ℕ) → Chain l t xs → (t == null) ≡ false
Chain-ne-null l t [] h = rw h refl
Chain-ne-null l t (x ∷ xs) h = let e = h.0 in let big = h.1 in ground arith

first_wakes :
    (m x : ℕ) (k : Kernel) (xs rs : List ℕ)
    → CanWake k m (x ∷ xs) rs
    → (g : Kernel) × (wake_handler m k ≡ ok g) × Holds g.links scheduler_queue (woken k (x ∷ xs) rs)
unfolding wake_handler
first_wakes m x k xs rs c =
    let queue = receive_queue m in
    let q : IsQueue queue = omega arith in
    let h = c.receivers in
    let popped = pop_thread-cons k queue x xs q h in
    let k1 = resume_with x success (write_link k queue (next k x)) in
    let same : SamePriorities k k1 = λ t. ground arith in
    let other : (queue == scheduler_queue) ≡ false = ground arith in
    let kept : Holds k1.links scheduler_queue rs = rw other (
      Chain-update k.links queue (next k x) (k.links scheduler_queue) rs (Apart-queue queue rs q)
        c.ready) in
    let first : has x (x ∷ xs) ≡ true = ground arith in
    let high : lt_int (k1.threads x).priority (k1.threads starting_state).priority ≡ false =
      rw (same x, same starting_state) (c.floor x first) in
    let (g, pushes, p) =
      push_thread-Pushed k1 scheduler_queue x rs refl h.1 (c.apart x first) c.room high kept in
    let n1 : (k.links queue == null) ≡ false = Chain-ne-null k.links (k.links queue) (x ∷ xs) h in
    let n2 : (next k (k.links queue) == null) ≡ false =
      ap (λ t. next k t == null) h.0 ∙ Chain-ne-null k.links (next k x) xs h.3 in
    (
      g,
      rw (n1, n2, popped.0) pushes,
      rw
          (sym (
            ap (λ p. insert k1 p x rs) (same x)
            ∙ insert_cong k k1 (k.threads x).priority x rs same))
          (p.inserted),
    )

wakes :
    (m : ℕ) (k : Kernel) (xs rs : List ℕ)
    → CanWake k m xs rs
    → (g : Kernel) × (wake_handler m k ≡ ok g) × Holds g.links scheduler_queue (woken k xs rs)
wakes m k [] rs c = idle_wakes m k rs c
wakes m k (x ∷ xs) rs c = first_wakes m x k xs rs c

-- The words that an event posts are those that a send writes.
post_message-snoc :
    (s : System) (m message : ℕ)
    → IsValid (s.queues m)
    → has_space (s.queues m) ≡ true
    → (contents (post_message m message s) m ≡ contents s m ++ (message ∷ []))
      × IsValid ((post_message m message s).queues m)
unfolding post_message append_message store_message
post_message-snoc s m message v space =
    let swap : message_index (s.queues m).used (s.queues m).first (s.queues m).queue_size
        ≡ tail_index (s.queues m) =
      ground arith in
    let q = s.queues m in
    let sent = append_message-snoc s m message v space in
    (
      ap
            (λ i.
              contents
                (set_queue (record s { memory = update s.memory (slot q i) message }) m
                  (record q { used = add_u32 q.used 1 }))
                m)
            swap
          ∙ sent.0,
      sent.1,
    )

-- What `EnqueueEventHandler` leaves of the queue, the ready threads and the handlers.
pub record Posted (i g : Interrupts) (m : ℕ) (after ready : List ℕ) : Type 0 where
  pub holds : contents g.system m ≡ after
  pub valid : IsValid (g.system.queues m)
  pub scheduled : Holds g.system.kernel.links scheduler_queue ready
  pub handlers : g.handlers ≡ i.handlers
  pub accesses : g.accesses ≡ i.accesses

enqueue_event_handler-enqueue :
    (i : Interrupts) (device m : ℕ)
    → (i.handlers device).queue ≡ some m
    → enqueue_event_handler device i ≡ enqueue m (i.handlers device).message i
unfolding enqueue_event_handler
enqueue_event_handler-enqueue i device m e = ap (λ o. enqueue_to o (i.handlers device).message i) e

enqueue_full :
    (i : Interrupts) (m message : ℕ) → is_full m i.system ≡ true → enqueue m message i ≡ ok i
enqueue_full i m message full = rw full refl

enqueue_free :
    (i : Interrupts) (m message : ℕ) (k : Kernel)
    → is_full m i.system ≡ false
    → wake_handler m i.system.kernel ≡ ok k
    → enqueue m message i
      ≡ ok (record i { system = record (post_message m message i.system) { kernel = k } })
unfolding post_message
enqueue_free i m message k space runs = rw (space, runs) refl

-- Where an event's handler is a valid message queue whose waiting receivers are a list that ends in the
-- starting state and has no ready thread and none of a priority below the starting state's, and where
-- the ready threads are in order, `EnqueueEventHandler` returns. If the queue has a free place, the
-- event's message stands behind the others, and the first waiting receiver, where there is one, has
-- joined the ready threads by priority; if it has none, nothing changes.
pub enqueue_event_handler-Posted :
    (i : Interrupts) (device m : ℕ) (xs rs : List ℕ)
    → (i.handlers device).queue ≡ some m
    → IsValid (i.system.queues m)
    → CanWake i.system.kernel m xs rs
    → (g : Interrupts) × (enqueue_event_handler device i ≡ ok g)
      × (((is_full m i.system ≡ true) × (g ≡ i))
          ⊎ ((is_full m i.system ≡ false)
              × Posted i g m
                  (contents i.system m ++ ((i.handlers device).message ∷ []))
                  (woken i.system.kernel xs rs)))
enqueue_event_handler-Posted i device m xs rs at v c =
    let message = (i.handlers device).message in
    let start = enqueue_event_handler-enqueue i device m at in
    elim (Bool-cases (is_full m i.system)) [
      | inl full ↦ (i, start ∙ enqueue_full i m message full, inl (full, refl))
      | inr space ↦
          let free : has_space (i.system.queues m) ≡ true = rw space refl in
          let posted = post_message-snoc i.system m message v free in
          let (k, runs, ready) = wakes m i.system.kernel xs rs c in
          (
            record i { system = record (post_message m message i.system) { kernel = k } },
            start ∙ enqueue_free i m message k space runs,
            inr (
              space,
              record {
                holds = posted.0;
                valid = posted.1;
                scheduled = ready;
                handlers = refl;
                accesses = refl;
              },
            ),
          )
    ]
