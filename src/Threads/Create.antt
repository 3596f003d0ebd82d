-- ===== src/Threads/Create.antt =====
-- `CreateThread` of kernel/source/scheduler/threads.c: which thread it takes.
use star_struck.Base.{
  ℕ, zero, suc, ◌+◌, ◌≤◌, ◌<◌, ◌≡◌, ◌≢◌, ◌⊎◌, inl, inr, refl, ap, Bool, true, false, not, ◌&&◌,
  ◌||◌, ℤ, pos, leb, ◌==◌, ==_refl, lt_int, to_u32, Option, none, some, if◌then◌else◌, arith,
}
use star_struck.Threads.State.{
  Kernel, ThreadState, is_unset, null, thread_at, next, next_cell, max_threads,
}
use star_struck.Threads.Syscalls.{find_unset, created, create_thread, process_of, ipc_emax}

abbrev unset_at : Kernel → ℕ → Bool
unset_at k i = is_unset (k.threads (thread_at i)).thread_state

-- The scan gives the first unset thread, or none if there is none.
data Scan (k : Kernel) (i n : ℕ) : Option ℕ → Type 0 where
  found :
      (j : ℕ)
      → i ≤ j
      → j < i + n
      → unset_at k j ≡ true
      → ((l : ℕ) → i ≤ l → l < j → unset_at k l ≡ false)
      → Scan k i n (some j)
  missing : ((l : ℕ) → i ≤ l → l < i + n → unset_at k l ≡ false) → Scan k i n none

find_unset-Scan : (n i : ℕ) (k : Kernel) → Scan k i n (find_unset n i k)
unfolding find_unset
find_unset-Scan zero i k = missing (λ l a b. absurd (omega (arith, a, b)))
find_unset-Scan (suc n) i k =
    step (unset_at k i) refl (find_unset n (i + 1) k) (find_unset-Scan n (i + 1) k)
  where
    eq_or_lt : (i l : ℕ) → i ≤ l → (l ≡ i) ⊎ (i + 1 ≤ l)
    eq_or_lt i l h = ground arith

    step :
        (b : Bool)
        → unset_at k i ≡ b
        → (o : Option ℕ) → Scan k (i + 1) n o
        → Scan k i (suc n) (if b then some i else o)
    step true e o s = found i (omega arith) (omega arith) e (λ l a b. absurd (omega (arith, a, b)))
    step false e o (found j a b u before) =
        found j (omega (arith, a)) (omega (arith, b)) u
          (λ l c d. elim (eq_or_lt i l c) [ inl same ↦ rw same e | inr more ↦ before l more d ])
    step false e o (missing all) = missing (λ l c d. elim (eq_or_lt i l c) [
      | inl same ↦ rw same e
      | inr more ↦ all l more (omega (arith, d))
    ])

-- What a call of `CreateThread` whose arguments are valid gives.
pub data Created (k : Kernel) (priority : ℤ) : ℤ × Kernel → Type 0 where
  full :
      ((l : ℕ) → l < max_threads → is_unset (k.threads (thread_at l)).thread_state ≡ false)
      → Created k priority (ipc_emax, k)
  new :
      (i : ℕ) (g : Kernel)
      → i < max_threads
      → is_unset (k.threads (thread_at i)).thread_state ≡ true
      → ((l : ℕ) → l < i → is_unset (k.threads (thread_at l)).thread_state ≡ false)
      → (g.threads (thread_at i)).thread_state ≡ ThreadState.stopped
      → (g.threads (thread_at i)).priority ≡ priority
      → (g.threads (thread_at i)).process_id
        ≡ (if k.current == null then 0 else process_of k k.current)
      → (g.threads (thread_at i)).join_queue ≡ null
      → (g.threads (thread_at i)).thread_queue ≡ null
      → next g (thread_at i) ≡ null
      → ((t : ℕ) → t ≢ thread_at i → (g.threads t ≡ k.threads t) × (next g t ≡ next k t))
      → Created k priority (pos i, g)

created-new :
    (main arg stack_top : ℕ) (priority : ℤ) (detached : ℕ) (k : Kernel) (i : ℕ)
    → i < max_threads
    → unset_at k i ≡ true
    → ((l : ℕ) → l < i → unset_at k l ≡ false)
    → Created k priority (pos i, created main arg stack_top priority detached (thread_at i) k)
unfolding created
created-new main arg stack_top priority detached k i lt free before =
    new i (created main arg stack_top priority detached (thread_at i) k) lt free before
      (rw (==_refl (thread_at i)) refl) (rw (==_refl (thread_at i)) refl)
      (rw (==_refl (thread_at i)) refl) (rw (==_refl (thread_at i)) refl)
      (rw (==_refl (thread_at i)) refl) (rw (==_refl (next_cell (thread_at i))) refl)
      (λ t other. (
        rw (ne_test (thread_at i) t other) refl,
        rw (ne_test (next_cell (thread_at i)) (next_cell t) (omega (arith, other))) refl,
      ))
  where
    ne_test : (a b : ℕ) → b ≢ a → (a == b) ≡ false
    ne_test a b h = ground arith

-- With a priority below 0x80 and not above that of the running thread, and with a size where there
-- is a stack, `CreateThread` takes the first unset thread: it is stopped, marked for no queue,
-- without a queue of joining threads and without a next thread, and belongs to the process of the
-- running thread, or to process 0 if none runs, and all other threads stay as they were. It gives
-- IPC_EMAX and changes nothing if no thread is unset.
pub create_thread-Created :
    (main arg stack_top stacksize : ℕ) (priority : ℤ) (detached : ℕ) (k : Kernel)
    → to_u32 priority < 0x80
    → (stack_top ≡ null) ⊎ (stacksize ≢ 0)
    → (k.current ≡ null) ⊎ (lt_int (k.threads k.current).initial_priority priority ≡ false)
    → Created k priority (create_thread main arg stack_top stacksize priority detached k)
unfolding create_thread
create_thread-Created main arg stack_top stacksize priority detached k low stack top =
    rw (valid_test low stack top)
      (from_scan (find_unset max_threads 0 k) (find_unset-Scan max_threads 0 k))
  where
    and_false : (b : Bool) → (b && false) ≡ false
    and_false true = refl
    and_false false = refl

    any_false : (a b c : Bool) → a ≡ false → b ≡ false → c ≡ false → (a || b || c) ≡ false
    any_false a b c x y z = rw (x, y, z) refl

    stack_test :
        (stack_top ≡ null) ⊎ (stacksize ≢ 0) → (not (stack_top == null) && (stacksize == 0)) ≡ false
    stack_test (inl e) = rw e refl
    stack_test (inr n) = ground arith

    top_test :
        (k.current ≡ null) ⊎ (lt_int (k.threads k.current).initial_priority priority ≡ false)
        → (not (k.current == null) && lt_int (k.threads k.current).initial_priority priority)
          ≡ false
    top_test (inl e) =
        ap (λ (t : ℕ). not (t == null) && lt_int (k.threads t).initial_priority priority) e
    top_test (inr h) = rw h (and_false (not (k.current == null)))

    valid_test :
        to_u32 priority < 0x80
        → (stack_top ≡ null) ⊎ (stacksize ≢ 0)
        → (k.current ≡ null) ⊎ (lt_int (k.threads k.current).initial_priority priority ≡ false)
        → (leb 0x80 (to_u32 priority)
            || (not (stack_top == null) && (stacksize == 0))
            || (not (k.current == null) && lt_int (k.threads k.current).initial_priority priority))
          ≡ false
    valid_test low stack top =
        any_false (leb 0x80 (to_u32 priority)) (not (stack_top == null) && (stacksize == 0))
          (not (k.current == null) && lt_int (k.threads k.current).initial_priority priority)
          (ground (arith, low)) (stack_test stack) (top_test top)

    from_scan :
        (o : Option ℕ)
        → Scan k 0 max_threads o
        → Created k priority (elim o [
          | none ↦ (ipc_emax, k)
          | some i ↦ (pos i, created main arg stack_top priority detached (thread_at i) k)
        ])
    from_scan none (missing all) = full (λ l lt. all l (omega arith) lt)
    from_scan (some _) (found i _ lt free before) =
        created-new main arg stack_top priority detached k i lt free
          (λ l m. before l (omega arith) m)
