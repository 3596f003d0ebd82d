-- ===== src/Threads/Block.antt =====
-- A thread of kernel/source/scheduler/threads.c that waits on a queue.
use star_struck.Base.{
  ℕ, ◌<◌, ◌≡◌, ◌≢◌, refl, ap, sym, ◌∙◌, true, false, ◌==◌, List, ◌∷◌, has, length, arith, ok,
}
use star_struck.Threads.State.{
  Kernel, null, starting_state, scheduler_queue, next, next_cell, write_link,
}
use star_struck.Threads.Queue.{walk_fuel, push_thread}
use star_struck.Threads.Chain.{
  Holds, IsQueue, Apart-queue, Apart-next_cell, next_cell-ne-of_mem, Chain-frame,
}
use star_struck.Threads.Push.{insert, Pushed, push_thread-Pushed}
use star_struck.Threads.Order.{
  priority_of, AtLeast-of_lt, Ordered-cong, SamePriorities, insert_cong,
}
use star_struck.Threads.Pop.{Chain-update, pop_thread-cons}
use star_struck.Threads.Schedule.{switch_to, schedule_yield, save_context, yield_current_thread}
use star_struck.Threads.Switch.{
  IsScheduled, Pushed-same, save_context-same, save_context-links, save_context-floor,
}

-- Another queue's threads are no threads of the queue `xs`.
abbrev pub Disjoint : List ℕ → List ℕ → Type 0
Disjoint rs xs = (t : ℕ) → has t rs ≡ true → has t xs ≡ false

-- A push on one queue leaves the scheduler's queue.
Pushed-scheduler :
    (k : Kernel) (queue thread : ℕ) (xs rs : List ℕ) (g : Kernel)
    → Pushed k queue thread xs g
    → IsQueue queue
    → queue ≢ scheduler_queue
    → has thread rs ≡ false
    → Disjoint rs xs
    → Holds k.links scheduler_queue rs
    → Holds g.links scheduler_queue rs
Pushed-scheduler k queue thread xs rs g p q other fresh apart h =
    let head : g.links scheduler_queue ≡ k.links scheduler_queue =
      p.kept scheduler_queue (λ e. other (sym e)) (omega arith)
        (Apart-queue scheduler_queue xs refl) in
    rw head (
      Chain-frame k.links g.links (k.links scheduler_queue) rs
        (λ x m.
          p.kept (next_cell x) (omega (arith, q)) (next_cell-ne-of_mem thread x rs fresh m)
            (Apart-next_cell x xs (apart x m)))
        h)

-- What the switch leaves of a queue that is not the scheduler's.
switch-Holds :
    (k : Kernel) (queue y v : ℕ) (xs : List ℕ)
    → queue ≢ scheduler_queue
    → Holds k.links queue xs
    → Holds (switch_to y (write_link k scheduler_queue v)).links queue xs
unfolding switch_to
switch-Holds k queue y v xs other h =
    let e : (scheduler_queue == queue) ≡ false = ground (arith, other) in
    rw e (
      Chain-update k.links scheduler_queue v (k.links queue) xs
        (Apart-queue scheduler_queue xs refl) h)

switch-same :
    (k : Kernel) (y v : ℕ) → SamePriorities k (switch_to y (write_link k scheduler_queue v))
unfolding switch_to
switch-same k y v t = ground arith

first-IsScheduled :
    (k g : Kernel) (y : ℕ) (ys : List ℕ)
    → IsScheduled k (y ∷ ys)
    → Holds g.links scheduler_queue ys
    → g.current ≡ y
    → SamePriorities k g
    → IsScheduled g ys
first-IsScheduled k g y ys s holds current same = record {
  queue = holds;
  ordered = Ordered-cong k g ys same s.ordered.1;
  current = rw current (s.queue.1);
  apart = rw current (s.queue.2);
  room = omega (arith, s.room);
  floor = λ t big. rw (same t, same starting_state) (s.floor t big);
}

-- In a scheduled kernel with a ready thread, a running thread that yields on another queue, which
-- shares no thread with the scheduler and is shorter than the walk, stands in that queue by
-- priority, and the first ready thread runs, with the others still in order.
pub yield_current_thread-Waits :
    (k : Kernel) (queue y : ℕ) (xs ys : List ℕ)
    → IsQueue queue
    → queue ≢ scheduler_queue
    → IsScheduled k (y ∷ ys)
    → Holds k.links queue xs
    → has k.current xs ≡ false
    → length xs < walk_fuel
    → Disjoint (y ∷ ys) xs
    → (g : Kernel) × (yield_current_thread queue k ≡ ok g)
      × (g.current ≡ y)
      × IsScheduled g ys
      × Holds g.links queue (insert k (priority_of k k.current) k.current xs)
unfolding save_context
yield_current_thread-Waits k queue y xs ys q other s h fresh room apart =
    let c = k.current in
    let saved = save_context queue k in
    let same = save_context-same queue k in
    let (g1, pushes, p) =
      push_thread-Pushed saved queue c xs q s.current fresh room
        (save_context-floor queue k c
          (AtLeast-of_lt (priority_of k starting_state) (priority_of k c) (s.floor c s.current)))
        (rw (save_context-links queue k) h) in
    let ready =
      Pushed-scheduler saved queue c xs (y ∷ ys) g1 p q other s.apart apart
        (rw (save_context-links queue k) s.queue) in
    let popped = pop_thread-cons g1 scheduler_queue y ys refl ready in
    let g = switch_to y (write_link g1 scheduler_queue (next g1 y)) in
    let inserted : insert saved (priority_of saved c) c xs ≡ insert k (priority_of k c) c xs =
      insert_cong k saved (priority_of saved c) c xs same ∙ ap (λ a. insert k a c xs) (same c) in
    (
      g,
      yields queue k g1 g (not_null c s.current) (odd_not_null queue q) pushes
          (unfold schedule_yield in rw (popped.0) refl),
      (unfold switch_to in refl),
      (first-IsScheduled k g y ys s (unfold switch_to in popped.1) (unfold switch_to in refl)
          (λ t. switch-same g1 y (next g1 y) t ∙ (Pushed-same saved queue c xs g1 p t ∙ same t))),
      switch-Holds g1 queue y (next g1 y) (insert k (priority_of k c) c xs) other
          (rw inserted at (p.inserted)),
    )
  where
    not_null : (t : ℕ) → 1 < t → (t == null) ≡ false
    not_null t h = ground arith

    odd_not_null : (t : ℕ) → IsQueue t → (t == null) ≡ false
    odd_not_null t h = ground arith

    yields :
        (queue : ℕ) (k g1 g : Kernel)
        → (k.current == null) ≡ false
        → (queue == null) ≡ false
        → push_thread queue k.current (save_context queue k) ≡ ok g1
        → schedule_yield g1 ≡ ok g
        → yield_current_thread queue k ≡ ok g
    yields queue k g1 g a b pushes runs =
        unfold yield_current_thread in rw (a, b, pushes, runs) refl
