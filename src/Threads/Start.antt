-- ===== src/Threads/Start.antt =====
-- `StartThread` of kernel/source/scheduler/threads.c in a kernel whose scheduler is in order.
use star_struck.Base.{
  ℕ, ◌+◌, ◌<◌, ◌≡◌, ◌≢◌, ◌⊎◌, inl, inr, refl, ◌∙◌, true, false, ◌||◌, pos, leb, ◌==◌, List, has,
  length, arith, ok,
}
use star_struck.Threads.State.{
  Kernel, ThreadState, is_stopped, null, scheduler_queue, max_threads, set_state,
}
use star_struck.Threads.Queue.{walk_fuel}
use star_struck.Threads.Push.{insert, has-insert}
use star_struck.Threads.Order.{priority_of}
use star_struck.Threads.Schedule.{preempt}
use star_struck.Threads.Switch.{IsScheduled, IsTop, IsScheduled-cong}
use star_struck.Threads.Preempt.{preempt-IsTop}
use star_struck.Threads.Unblock.{push_ready-IsScheduled}
use star_struck.Threads.Syscalls.{success, selected, may_control, started, start_thread}

pub state-IsScheduled :
    (k : Kernel) (t : ℕ) (state : ThreadState) (rs : List ℕ)
    → IsScheduled k rs
    → IsScheduled (set_state k t state) rs
state-IsScheduled k t state rs s =
    IsScheduled-cong k (set_state k t state) rs refl refl (λ u. ground arith) s

-- What `StartThread` does for a stopped thread that is not yet on a queue.
started-IsTop :
    (k : Kernel) (t : ℕ) (rs : List ℕ)
    → IsScheduled k rs
    → 1 < t
    → ((k.threads t).thread_queue ≡ null) ⊎ ((k.threads t).thread_queue ≡ scheduler_queue)
    → has t rs ≡ false
    → t ≢ k.current
    → length rs + 3 < walk_fuel
    → (g h : Kernel) × (ys : List ℕ) × (started t k ≡ ok g)
      × ((g.current == null) ≡ false)
      × (preempt g ≡ ok h)
      × IsScheduled h ys
      × IsTop h
      × ((u : ℕ) → ((u == h.current) || has u ys) ≡ ((u == k.current) || ((u == t) || has u rs)))
unfolding started
started-IsTop k t rs s big queue fresh other room =
    let k1 = set_state k t ThreadState.ready in
    let (k2, pushes, s2, same) =
      push_ready-IsScheduled k1 t rs (state-IsScheduled k t ThreadState.ready rs s) big fresh other
        room in
    let ready = insert k1 (priority_of k1 t) t rs in
    let (g, ys, runs, scheduled, top, kept) = preempt-IsTop k2 ready s2 in
    (
      k2,
      g,
      ys,
      rw (to_scheduler (k.threads t).thread_queue queue) pushes,
      not_null k2.current s2.current,
      runs,
      scheduled,
      top,
      λ u. kept u ∙ rw (same, has-insert k1 (priority_of k1 t) t u rs) refl,
    )
  where
    to_scheduler :
        (q : ℕ)
        → (q ≡ null) ⊎ (q ≡ scheduler_queue)
        → ((q == null) || (q == scheduler_queue)) ≡ true
    to_scheduler q (inl e) = rw e refl
    to_scheduler q (inr e) = rw e refl

    not_null : (t : ℕ) → 1 < t → (t == null) ≡ false
    not_null t h = ground arith

-- In a scheduled kernel with room for one more thread, where the caller may control a stopped thread
-- that is not ready and is marked for no other queue than the scheduler's, `StartThread` returns 0:
-- exactly this thread joins the running and ready ones, the scheduler stays in order, and no ready
-- thread has a higher priority than the running one.
pub start_thread-IsTop :
    (k : Kernel) (i : ℕ) (rs : List ℕ)
    → IsScheduled k rs
    → i < max_threads
    → 1 < selected i k
    → may_control (selected i k) k ≡ true
    → is_stopped (k.threads (selected i k)).thread_state ≡ true
    → ((k.threads (selected i k)).thread_queue ≡ null)
      ⊎ ((k.threads (selected i k)).thread_queue ≡ scheduler_queue)
    → has (selected i k) rs ≡ false
    → selected i k ≢ k.current
    → length rs + 3 < walk_fuel
    → (g : Kernel) × (ys : List ℕ) × (start_thread (pos i) k ≡ ok (success, g))
      × IsScheduled g ys
      × IsTop g
      × ((u : ℕ)
          → ((u == g.current) || has u ys)
            ≡ ((u == k.current) || ((u == selected i k) || has u rs)))
unfolding start_thread
start_thread-IsTop k i rs s lt big may stopped queue fresh other room =
    let (g, h, ys, starts, there, runs, scheduled, top, kept) =
      started-IsTop k (selected i k) rs s big queue fresh other room in
    let known : leb max_threads i ≡ false = ground (arith, lt) in
    (h, ys, rw (known, may, stopped, starts, there, runs) refl, scheduled, top, kept)
