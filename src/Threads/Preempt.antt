-- ===== src/Threads/Preempt.antt =====
-- The test for preemption of kernel/source/scheduler/threads.c.
use star_struck.Base.{
  ℕ, ◌≡◌, refl, Bool, true, false, lt_int, List, [], ◌∷◌, ◌||◌, has, arith, ◌==◌, inl, inr,
  Bool-cases, ok,
}
use star_struck.Threads.State.{Kernel, ThreadState, starting_state, scheduler_queue, set_state}
use star_struck.Threads.Chain.{Holds}
use star_struck.Threads.Push.{insert, insert_lt, has-insert}
use star_struck.Threads.Order.{priority_of, AtLeast, AtLeast-of_lt, Ordered}
use star_struck.Threads.Schedule.{preempt}
use star_struck.Threads.Switch.{
  IsScheduled, yield_current_thread-Switched, IsTop, Conserves, IsScheduled-cong,
  Switched-IsScheduled,
}

-- The first ready thread, or the starting state.
head_of : List ℕ → ℕ
head_of [] = starting_state
head_of (x ∷ xs) = x

Holds-head : (l : ℕ → ℕ) (queue : ℕ) (xs : List ℕ) → Holds l queue xs → l queue ≡ head_of xs
unfolding head_of
Holds-head l queue [] h = h
Holds-head l queue (x ∷ xs) h = h.0

-- The thread that is ahead of the running one is ahead of those behind it.
head-AtLeast :
    (k : Kernel) (x : ℕ) (rs : List ℕ) (c : ℕ)
    → Ordered k (x ∷ rs)
    → AtLeast (priority_of k x) (priority_of k c)
    → AtLeast (priority_of k x) (priority_of k (head_of (insert k (priority_of k c) c rs)))
unfolding insert head_of
head-AtLeast k x [] c o h = h
head-AtLeast k x (y ∷ rs) c o h = ground (arith, o.0.0)

ready_state-IsScheduled :
    (k : Kernel) (rs : List ℕ)
    → IsScheduled k rs
    → IsScheduled (set_state k k.current ThreadState.ready) rs
ready_state-IsScheduled k rs s =
    IsScheduled-cong k (set_state k k.current ThreadState.ready) rs refl refl (λ t. ground arith) s

or_swap : (a b d : Bool) → (a || (b || d)) ≡ (b || (a || d))
or_swap true true d = refl
or_swap true false d = refl
or_swap false b d = refl

-- Where the first ready thread is ahead of the running one, they change places.
preempt-switch :
    (k : Kernel) (x : ℕ) (rs : List ℕ)
    → IsScheduled k (x ∷ rs)
    → lt_int (priority_of k k.current) (priority_of k x) ≡ true
    → (g : Kernel) × (ys : List ℕ) × (preempt k ≡ ok g)
      × IsScheduled g ys
      × IsTop g
      × Conserves k (x ∷ rs) g ys
preempt-switch k x rs s less =
    let c = k.current in
    let k0 = set_state k c ThreadState.ready in
    let ys = insert k0 (priority_of k0 c) c rs in
    let s0 = ready_state-IsScheduled k (x ∷ rs) s in
    let ahead : lt_int (priority_of k0 c) (priority_of k0 x) ≡ true = ground arith in
    let e : insert k0 (priority_of k0 c) c (x ∷ rs) ≡ x ∷ ys =
      insert_lt k0 (priority_of k0 c) c x rs ahead in
    let (g, yields, w) = yield_current_thread-Switched k0 (x ∷ rs) x ys s0 e in
    (
      g,
      ys,
      unfold preempt in ground (arith, yields, less, s.current, s.queue.0, s.queue.1),
      Switched-IsScheduled k0 g (x ∷ rs) x ys s0 e w,
      rw (w.current, Holds-head g.links scheduler_queue ys w.queue, w.same x, w.same (head_of ys))
          (head-AtLeast k0 x rs c s0.ordered
            (AtLeast-of_lt (priority_of k0 c) (priority_of k0 x) ahead)),
      λ t.
          rw (w.current, has-insert k0 (priority_of k0 c) c t rs)
            (or_swap (t == x) (t == c) (has t rs)),
    )

pub preempt_stay : (k : Kernel) (rs : List ℕ) → IsScheduled k rs → IsTop k → preempt k ≡ ok k
unfolding preempt
preempt_stay k [] s top = ground (arith, s.current, s.queue)
preempt_stay k (x ∷ rs) s top = ground (arith, s.current, s.queue.0, s.queue.1)

-- In a scheduled kernel the test for preemption returns, and behind it the kernel is scheduled, no
-- ready thread has a higher priority than the running one, and no thread is lost or added.
pub preempt-IsTop :
    (k : Kernel) (rs : List ℕ)
    → IsScheduled k rs
    → (g : Kernel) × (ys : List ℕ) × (preempt k ≡ ok g)
      × IsScheduled g ys
      × IsTop g
      × Conserves k rs g ys
preempt-IsTop k [] s =
    let top : IsTop k = rw (s.queue) (
      AtLeast-of_lt (priority_of k starting_state) (priority_of k k.current)
        (s.floor k.current s.current)) in
    (k, [], preempt_stay k [] s top, s, top, λ t. refl)
preempt-IsTop k (x ∷ rs) s =
    elim (Bool-cases (lt_int (priority_of k k.current) (priority_of k x))) [
      | inl less ↦ preempt-switch k x rs s less
      | inr more ↦
          let top : IsTop k = rw (s.queue.0) more in
          (k, x ∷ rs, preempt_stay k (x ∷ rs) s top, s, top, λ t. refl)
    ]
