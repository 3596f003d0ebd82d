-- ===== src/Threads/Switch.antt =====
-- Which thread runs after a switch of kernel/source/scheduler/threads.c.
use star_struck.Base.{
  ℕ, suc, ◌+◌, ◌<◌, ◌≡◌, refl, ap, sym, ◌∙◌, true, false, lt_int, List, ◌∷◌, ◌||◌, has, length,
  arith, ◌==◌, ok,
}
use star_struck.Threads.State.{
  Kernel, ThreadInfo, ThreadState, starting_state, scheduler_queue, write_link, next,
}
use star_struck.Threads.Queue.{push_thread, walk_fuel}
use star_struck.Threads.Chain.{Holds}
use star_struck.Threads.Push.{insert, Pushed, push_thread-Pushed, length-insert}
use star_struck.Threads.Order.{
  priority_of, AtLeast, AtLeast-of_lt, Ordered, SamePriorities, insert_cong, insert-Ordered,
  Ordered-cong,
}
use star_struck.Threads.Pop.{pop_thread-cons}
use star_struck.Threads.Schedule.{switch_to, schedule_yield, save_context, yield_current_thread}

-- The running thread is none of the ready threads `rs`, which are in order of priority and leave
-- room in the walk, and every thread's priority is above that of the starting state.
pub record IsScheduled (k : Kernel) (rs : List ℕ) : Type 0 where
  pub queue : Holds k.links scheduler_queue rs
  pub ordered : Ordered k rs
  pub current : 1 < k.current
  pub apart : has k.current rs ≡ false
  pub room : length rs + 2 < walk_fuel
  pub floor : (t : ℕ) → 1 < t → lt_int (priority_of k starting_state) (priority_of k t) ≡ true

-- What a switch to the thread `y` leaves, with `ys` still ready.
pub record Switched (k : Kernel) (y : ℕ) (ys : List ℕ) (g : Kernel) : Type 0 where
  pub queue : Holds g.links scheduler_queue ys
  pub current : g.current ≡ y
  pub domain : g.domain_access ≡ (k.threads y).process_id
  pub state : (g.threads y).thread_state ≡ ThreadState.running
  pub same : SamePriorities k g
  pub big : 1 < y
  pub fresh : has y ys ≡ false

schedule_yield-Switched :
    (k : Kernel) (y : ℕ) (ys : List ℕ)
    → Holds k.links scheduler_queue (y ∷ ys)
    → (g : Kernel) × (schedule_yield k ≡ ok g) × Switched k y ys g
unfolding schedule_yield
schedule_yield-Switched k y ys h =
    let popped = pop_thread-cons k scheduler_queue y ys refl h in
    (
      switch_to y (write_link k scheduler_queue (next k y)),
      rw popped.0 refl,
      record {
        queue = popped.1;
        current = refl;
        domain = refl;
        state = ground arith;
        same = λ t. ground arith;
        big = h.1;
        fresh = h.2;
      },
    )

pub save_context-same : (queue : ℕ) (k : Kernel) → SamePriorities k (save_context queue k)
unfolding save_context
save_context-same queue k t = ground arith

save_context-process :
    (queue : ℕ) (k : Kernel) (t : ℕ)
    → ((save_context queue k).threads t).process_id ≡ (k.threads t).process_id
unfolding save_context
save_context-process queue k t = ground arith

pub Pushed-same :
    (k : Kernel) (queue t : ℕ) (xs : List ℕ) (g : Kernel)
    → Pushed k queue t xs g
    → SamePriorities k g
Pushed-same k queue t xs g p u = ap (λ (f : ℕ → ThreadInfo). (f u).priority) p.queued ∙ ground arith

Pushed-process :
    (k : Kernel) (queue t : ℕ) (xs : List ℕ) (g : Kernel)
    → Pushed k queue t xs g
    → (u : ℕ) → (g.threads u).process_id ≡ (k.threads u).process_id
Pushed-process k queue t xs g p u =
    ap (λ (f : ℕ → ThreadInfo). (f u).process_id) p.queued ∙ ground arith

pub save_context-floor :
    (queue : ℕ) (k : Kernel) (t : ℕ)
    → AtLeast (priority_of k t) (priority_of k starting_state)
    → AtLeast
        (priority_of (save_context queue k) t)
        (priority_of (save_context queue k) starting_state)
save_context-floor queue k t h =
    rw (save_context-same queue k t, save_context-same queue k starting_state) h

pub save_context-links : (queue : ℕ) (k : Kernel) → (save_context queue k).links ≡ k.links
unfolding save_context
save_context-links queue k = refl

-- The push of the running thread.
yield-Pushed :
    (k : Kernel) (rs : List ℕ) (y : ℕ) (ys : List ℕ)
    → IsScheduled k rs
    → insert k (priority_of k k.current) k.current rs ≡ y ∷ ys
    → (g : Kernel) × (push_thread scheduler_queue k.current (save_context scheduler_queue k) ≡ ok g)
      × Holds g.links scheduler_queue (y ∷ ys)
      × SamePriorities k g
      × ((u : ℕ) → (g.threads u).process_id ≡ (k.threads u).process_id)
yield-Pushed k rs y ys s e =
    let c = k.current in
    let saved = save_context scheduler_queue k in
    let same = save_context-same scheduler_queue k in
    let (g, pushes, p) =
      push_thread-Pushed saved scheduler_queue c rs refl s.current s.apart (room_of s.room)
        (save_context-floor scheduler_queue k c
          (AtLeast-of_lt (priority_of k starting_state) (priority_of k c) (s.floor c s.current)))
        (rw (save_context-links scheduler_queue k) s.queue) in
    let inserted : insert saved (priority_of saved c) c rs ≡ y ∷ ys =
      insert_cong k saved (priority_of saved c) c rs same
      ∙ ap (λ q. insert k q c rs) (same c)
      ∙ e in
    (
      g,
      pushes,
      (rw inserted at (p.inserted)),
      (λ t. Pushed-same saved scheduler_queue c rs g p t ∙ same t),
      (λ u.
          Pushed-process saved scheduler_queue c rs g p u
          ∙ save_context-process scheduler_queue k u),
    )
  where
    room_of : length rs + 2 < walk_fuel → length rs < walk_fuel
    room_of h = omega arith

-- In a scheduled kernel, a running thread that yields to the ready threads is inserted among them by
-- priority, and the first of these runs, in the domain of its process.
pub yield_current_thread-Switched :
    (k : Kernel) (rs : List ℕ) (y : ℕ) (ys : List ℕ)
    → IsScheduled k rs
    → insert k (priority_of k k.current) k.current rs ≡ y ∷ ys
    → (g : Kernel) × (yield_current_thread scheduler_queue k ≡ ok g) × Switched k y ys g
yield_current_thread-Switched k rs y ys s e =
    let (g1, pushes, holds, same, process) = yield-Pushed k rs y ys s e in
    let (g, yields, w) = schedule_yield-Switched g1 y ys holds in
    (
      g,
      unfold yield_current_thread in ground (arith, pushes, yields, s.current),
      record {
        queue = w.queue;
        current = w.current;
        domain = w.domain ∙ process y;
        state = w.state;
        same = λ t. w.same t ∙ same t;
        big = w.big;
        fresh = w.fresh;
      },
    )

-- No ready thread has a higher priority than the running one.
abbrev pub IsTop : Kernel → Type 0
IsTop k = AtLeast (priority_of k k.current) (priority_of k (k.links scheduler_queue))

-- The running thread and the ready ones are the same as before, in another order.
abbrev pub Conserves : Kernel → List ℕ → Kernel → List ℕ → Type 0
Conserves k rs g ys = (t : ℕ) → ((t == g.current) || has t ys) ≡ ((t == k.current) || has t rs)

pub IsScheduled-cong :
    (k g : Kernel) (rs : List ℕ)
    → g.links ≡ k.links
    → g.current ≡ k.current
    → SamePriorities k g
    → IsScheduled k rs
    → IsScheduled g rs
IsScheduled-cong k g rs links current same s = record {
  queue = rw links s.queue;
  ordered = Ordered-cong k g rs same s.ordered;
  current = rw current s.current;
  apart = rw current s.apart;
  room = s.room;
  floor = λ t big. rw (same t, same starting_state) (s.floor t big);
}

pub Switched-IsScheduled :
    (k g : Kernel) (rs : List ℕ) (y : ℕ) (ys : List ℕ)
    → IsScheduled k rs
    → insert k (priority_of k k.current) k.current rs ≡ y ∷ ys
    → Switched k y ys g
    → IsScheduled g ys
Switched-IsScheduled k g rs y ys s e w =
    let order : Ordered k (y ∷ ys) = rw e at (insert-Ordered k k.current rs s.ordered) in
    let count : length (y ∷ ys) ≡ suc (length rs) =
      ap length (sym e) ∙ length-insert k (priority_of k k.current) k.current rs in
    record {
      queue = w.queue;
      ordered = Ordered-cong k g ys w.same order.1;
      current = rw (w.current) (w.big);
      apart = rw (w.current) (w.fresh);
      room = omega (arith, s.room);
      floor = λ t big. rw (w.same t, w.same starting_state) (s.floor t big);
    }
