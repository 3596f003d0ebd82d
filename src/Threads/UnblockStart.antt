-- ===== src/Threads/UnblockStart.antt =====
-- `UnblockThread` of kernel/source/scheduler/threads.c on a queue that holds no thread: it pops
-- `ThreadStartingState`, and links it to itself.
use star_struck.Base.{
  ℕ, ◌<◌, ◌≡◌, ◌≢◌, refl, ap, ◌∙◌, true, ℤ, lt_int, List, [], ◌∷◌, has, arith, Run, ok, fault, hang,
  ◌>>=◌,
}
use star_struck.Threads.State.{
  Kernel, ThreadInfo, starting_state, scheduler_queue, write_link, next, next_cell,
}
use star_struck.Threads.Queue.{push_thread, pop_thread}
use star_struck.Threads.Chain.{Chain, IsQueue, Chain-frame}
use star_struck.Threads.Push.{PushedStart, push_thread-start, AllAbove}
use star_struck.Threads.Order.{priority_of, SamePriorities, Ordered-cong}
use star_struck.Threads.Schedule.{resume_with, unblock_thread, preempt}
use star_struck.Threads.Switch.{IsScheduled, IsTop, Conserves}
use star_struck.Threads.Preempt.{preempt-IsTop, preempt_stay}
use star_struck.Threads.Unblock.{resumed-IsScheduled}

Chain-big : (l : ℕ → ℕ) (t x : ℕ) (xs : List ℕ) → Chain l t xs → has x xs ≡ true → 1 < x
Chain-big l t x [] h m = cc
Chain-big l t x (y ∷ ys) h m = ground (arith, Chain-big l (l (next_cell y)) x ys h.3)

AllAbove-of_floor :
    (k : Kernel) (p : ℤ) (l : ℕ → ℕ) (t : ℕ) (xs : List ℕ)
    → ((x : ℕ) → 1 < x → lt_int p (priority_of k x) ≡ true)
    → Chain l t xs
    → AllAbove k p xs
AllAbove-of_floor k p l t [] floor h = tt
AllAbove-of_floor k p l t (x ∷ xs) floor h =
    (floor x h.1, AllAbove-of_floor k p l (l (next_cell x)) xs floor h.3)

-- The push of the starting state on the scheduler's queue.
push_start-IsScheduled :
    (k g : Kernel) (rs : List ℕ)
    → IsScheduled k rs
    → PushedStart k scheduler_queue g
    → IsScheduled g rs
push_start-IsScheduled k g rs s p =
    let same : SamePriorities k g =
      λ t. ap (λ (f : ℕ → ThreadInfo). (f t).priority) p.queued ∙ ground arith in
    record {
      queue = rw (p.kept scheduler_queue (omega arith)) (
          Chain-frame k.links g.links (k.links scheduler_queue) rs
            (λ x m. p.kept (next_cell x) (
              let big = Chain-big k.links (k.links scheduler_queue) x rs s.queue m in
              omega (arith, big)))
            s.queue);
      ordered = Ordered-cong k g rs same s.ordered;
      current = rw (p.current) (s.current);
      apart = rw (p.current) (s.apart);
      room = s.room;
      floor = λ t big. rw (same t, same starting_state) (s.floor t big);
    }

-- Behind the first part of the call: the state before the test for preemption.
unblock_start :
    (k : Kernel) (queue : ℕ) (rs : List ℕ) (value : ℤ)
    → IsQueue queue
    → queue ≢ scheduler_queue
    → k.links queue ≡ starting_state
    → IsScheduled k rs
    → (g : Kernel) × ((pop_thread queue k >>= λ (t, k1).
          push_thread scheduler_queue t (resume_with t value k1))
        ≡ ok g)
      × IsScheduled g rs
      × (g.current ≡ k.current)
      × (next g starting_state ≡ starting_state)
      × (g.links queue ≡ next k starting_state)
      × SamePriorities k g
      × (g.links scheduler_queue ≡ k.links scheduler_queue)
unblock_start k queue rs value q other e s =
    let k1 = resume_with starting_state value (write_link k queue (next k starting_state)) in
    let s1 =
      resumed-IsScheduled k queue (next k starting_state) starting_state value rs q other s in
    let (g, pushes, p) =
      push_thread-start k1 scheduler_queue rs refl (omega (arith, s.room))
        (AllAbove-of_floor k1 (priority_of k1 starting_state) k1.links (k1.links scheduler_queue) rs
          s1.floor s1.queue)
        s1.queue in
    (
      g,
      unfold pop_thread in ground (arith, pushes, e),
      push_start-IsScheduled k1 g rs s1 p,
      p.current,
      p.knot,
      p.kept queue (omega arith) ∙ ground arith,
      (λ t. ap (λ (f : ℕ → ThreadInfo). (f t).priority) p.queued ∙ ground arith),
      p.kept scheduler_queue (omega arith) ∙ ground (arith, other),
    )

bind_twice :
    {A B C : Type 0} (r : Run A) (f : A → Run B) (h : B → Run C) (b : B)
    → (r >>= f) ≡ ok b
    → (r >>= λ a. f a >>= h) ≡ h b
bind_twice (ok a) f h b e = rw e
bind_twice fault f h b e = cc
bind_twice hang f h b e = cc

-- Unblocking a queue other than the scheduler's that leads to the starting state, in a scheduled
-- kernel, returns: the kernel stays scheduled with the same threads, and no ready thread has a
-- higher priority than the running one.
pub unblock_start-IsTop :
    (k : Kernel) (queue : ℕ) (rs : List ℕ) (value : ℤ)
    → IsQueue queue
    → queue ≢ scheduler_queue
    → k.links queue ≡ starting_state
    → IsScheduled k rs
    → (g : Kernel) × (ys : List ℕ) × (unblock_thread queue value k ≡ ok g)
      × IsScheduled g ys
      × IsTop g
      × Conserves k rs g ys
unblock_start-IsTop k queue rs value q other e s =
    let (k2, first, s2, same, _, _, _, _) = unblock_start k queue rs value q other e s in
    let (g, ys, runs, scheduled, top, kept) = preempt-IsTop k2 rs s2 in
    (
      g,
      ys,
      unfold unblock_thread in
          (bind_twice (pop_thread queue k)
              (λ (t, k1). push_thread scheduler_queue t (resume_with t value k1)) preempt k2 first
            ∙ runs),
      scheduled,
      top,
      λ t. rw same at (kept t),
    )

-- Where the starting state is linked to itself, unblocking a queue that leads to it leaves the queue
-- so, and the running thread goes on.
pub unblock_knot :
    (k : Kernel) (queue : ℕ) (rs : List ℕ) (value : ℤ)
    → IsQueue queue
    → queue ≢ scheduler_queue
    → k.links queue ≡ starting_state
    → next k starting_state ≡ starting_state
    → IsScheduled k rs
    → IsTop k
    → (g : Kernel) × (unblock_thread queue value k ≡ ok g)
      × IsScheduled g rs
      × IsTop g
      × (g.current ≡ k.current)
      × (g.links queue ≡ starting_state)
      × (next g starting_state ≡ starting_state)
unblock_knot k queue rs value q other e knot s top =
    let (g, first, s2, current, tied, links, same, head) =
      unblock_start k queue rs value q other e s in
    let still : IsTop g = rw (current, head, same k.current, same (k.links scheduler_queue)) top in
    (
      g,
      unfold unblock_thread in
          (bind_twice (pop_thread queue k)
              (λ (t, k1). push_thread scheduler_queue t (resume_with t value k1)) preempt g first
            ∙ preempt_stay g rs s2 still),
      s2,
      still,
      current,
      links ∙ knot,
      tied,
    )
