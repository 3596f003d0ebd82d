-- ===== src/Threads/Unblock.antt =====
-- `UnblockThread` of kernel/source/scheduler/threads.c: a waiting thread becomes ready, and runs at
-- once if its priority is the highest.
use star_struck.Base.{
  ℕ, ◌+◌, ◌<◌, ◌≡◌, ◌≢◌, refl, false, ℤ, List, ◌∷◌, ◌||◌, has, length, arith, ◌==◌, ok,
}
use star_struck.Threads.State.{Kernel, starting_state, scheduler_queue, write_link, next}
use star_struck.Threads.Queue.{push_thread, walk_fuel}
use star_struck.Threads.Chain.{Holds, IsQueue, Apart-queue}
use star_struck.Threads.Push.{insert, push_thread-Pushed, has-insert, length-insert}
use star_struck.Threads.Order.{
  priority_of, AtLeast-of_lt, SamePriorities, insert-Ordered, Ordered-cong,
}
use star_struck.Threads.Pop.{pop_thread-cons, Chain-update}
use star_struck.Threads.Schedule.{resume_with, unblock_thread}
use star_struck.Threads.Switch.{IsScheduled, IsTop, Pushed-same}
use star_struck.Threads.Preempt.{preempt-IsTop}

-- A thread that is none of the scheduler's is pushed on its queue.
pub push_ready-IsScheduled :
    (k : Kernel) (x : ℕ) (rs : List ℕ)
    → IsScheduled k rs
    → 1 < x
    → has x rs ≡ false
    → x ≢ k.current
    → length rs + 3 < walk_fuel
    → (g : Kernel) × (push_thread scheduler_queue x k ≡ ok g)
      × IsScheduled g (insert k (priority_of k x) x rs)
      × (g.current ≡ k.current)
push_ready-IsScheduled k x rs s big fresh other room =
    let (g, pushes, p) =
      push_thread-Pushed k scheduler_queue x rs refl big fresh (omega (arith, room))
        (AtLeast-of_lt (priority_of k starting_state) (priority_of k x) (s.floor x big)) s.queue in
    let same = Pushed-same k scheduler_queue x rs g p in
    let ready = insert k (priority_of k x) x rs in
    (
      g,
      pushes,
      record {
        queue = p.inserted;
        ordered = Ordered-cong k g ready same (insert-Ordered k x rs s.ordered);
        current = rw (p.current) (s.current);
        apart =
            rw (p.current, has-insert k (priority_of k x) x k.current rs) (ground (arith, s.apart));
        room = omega (arith, length-insert k (priority_of k x) x rs, room);
        floor = λ t large. rw (same t, same starting_state) (s.floor t large);
      },
      p.current,
    )

-- The state behind the pop and the writes to the woken thread.
pub resumed-IsScheduled :
    (k : Kernel) (queue v x : ℕ) (value : ℤ) (rs : List ℕ)
    → IsQueue queue
    → queue ≢ scheduler_queue
    → IsScheduled k rs
    → IsScheduled (resume_with x value (write_link k queue v)) rs
resumed-IsScheduled k queue v x value rs q other s =
    let g = resume_with x value (write_link k queue v) in
    let same : SamePriorities k g = λ t. ground arith in
    record {
      queue =
          (let e : g.links scheduler_queue ≡ k.links scheduler_queue = ground arith in
            rw e (
              Chain-update k.links queue v (k.links scheduler_queue) rs (Apart-queue queue rs q)
                s.queue));
      ordered = Ordered-cong k g rs same s.ordered;
      current = s.current;
      apart = s.apart;
      room = s.room;
      floor = λ t large. rw (same t, same starting_state) (s.floor t large);
    }

-- Unblocking a queue other than the scheduler's on which a thread waits, in a scheduled kernel whose
-- running and ready threads leave room for it and do not hold it, returns: the first waiter joins
-- the running and ready threads, no other thread does and none is lost, the kernel stays scheduled,
-- and no ready thread has a higher priority than the running one.
pub unblock_thread-IsTop :
    (k : Kernel) (queue x : ℕ) (xs rs : List ℕ) (value : ℤ)
    → IsQueue queue
    → queue ≢ scheduler_queue
    → Holds k.links queue (x ∷ xs)
    → IsScheduled k rs
    → has x rs ≡ false
    → x ≢ k.current
    → length rs + 3 < walk_fuel
    → (g : Kernel) × (ys : List ℕ) × (unblock_thread queue value k ≡ ok g)
      × IsScheduled g ys
      × IsTop g
      × ((t : ℕ) → ((t == g.current) || has t ys) ≡ ((t == k.current) || ((t == x) || has t rs)))
unblock_thread-IsTop k queue x xs rs value q other h s fresh apart room =
    let popped = pop_thread-cons k queue x xs q h in
    let k1 = resume_with x value (write_link k queue (next k x)) in
    let s1 = resumed-IsScheduled k queue (next k x) x value rs q other s in
    let (k2, pushes, s2, same) = push_ready-IsScheduled k1 x rs s1 h.1 fresh apart room in
    let ready = insert k1 (priority_of k1 x) x rs in
    let (g, ys, runs, scheduled, top, kept) = preempt-IsTop k2 ready s2 in
    (
      g,
      ys,
      unfold unblock_thread in rw (popped.0, pushes, runs),
      scheduled,
      top,
      λ t. rw (same, has-insert k1 (priority_of k1 x) x t rs) at (kept t),
    )
