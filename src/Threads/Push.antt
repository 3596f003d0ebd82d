-- ===== src/Threads/Push.antt =====
-- `ThreadQueue_PushThread` against insertion by priority.
use star_struck.Base.{
  ℕ, zero, suc, ◌<◌, ◌≡◌, ◌≢◌, refl, true, false, ℤ, lt_int, if◌then◌else◌, List, [], ◌∷◌, has,
  length, arith, update, ◌==◌, inl, inr, Bool-cases, ok, ◌||◌, ◌∙◌,
}
use star_struck.Threads.State.{Kernel, null, starting_state, next_cell, next}
use star_struck.Threads.Queue.{push_walk, push_thread, link, walk_fuel}
use star_struck.Threads.Chain.{
  Chain, Holds, Apart, Apart-queue, IsQueue, Apart-next_cell, Apart-mem, next_cell-ne-of_mem,
  Chain-frame,
}

-- Before the first thread of the same priority or a lower one.
unfoldable pub insert : Kernel → ℤ → ℕ → List ℕ → List ℕ
insert k priority t [] = t ∷ []
insert k priority t (x ∷ xs) =
    if lt_int priority (k.threads x).priority then x ∷ insert k priority t xs else t ∷ x ∷ xs

-- The place that the walk finds: the cell to write, and what is linked behind.
place : Kernel → ℤ → ℕ → List ℕ → ℕ × ℕ
place k priority cell [] = (cell, starting_state)
place k priority cell (x ∷ xs) =
    if lt_int priority (k.threads x).priority then place k priority (next_cell x) xs else (cell, x)

pub has-insert :
    (k : Kernel) (priority : ℤ) (t y : ℕ) (xs : List ℕ)
    → has y (insert k priority t xs) ≡ ((y == t) || has y xs)
unfolding insert
has-insert k priority t y [] = refl
has-insert k priority t y (x ∷ xs) = ground (arith, has-insert k priority t y xs)

pub length-insert :
    (k : Kernel) (priority : ℤ) (t : ℕ) (xs : List ℕ)
    → length (insert k priority t xs) ≡ suc (length xs)
unfolding insert
length-insert k priority t [] = refl
length-insert k priority t (x ∷ xs) = ground (arith, length-insert k priority t xs)

push_walk-place :
    (fuel : ℕ) (k : Kernel) (priority : ℤ) (cell t : ℕ) (xs : List ℕ)
    → lt_int priority (k.threads starting_state).priority ≡ false
    → Chain k.links t xs
    → length xs < fuel
    → push_walk fuel k priority cell t ≡ ok (place k priority cell xs)
unfolding push_walk place
push_walk-place zero k priority cell t xs low h f = absurd (omega arith)
push_walk-place (suc fuel) k priority cell t [] low h f = ground arith
push_walk-place (suc fuel) k priority cell t (x ∷ xs) low h f =
    ground (arith, push_walk-place fuel k priority (next_cell x) (next k x) xs)

-- The cells behind the two writes to them.
splice : (ℕ → ℕ) → ℕ → ℕ × ℕ → ℕ → ℕ
splice l thread p = update (update l p.0 thread) (next_cell thread) p.1

-- One step of the walk and of the insertion.
place_lt :
    (k : Kernel) (priority : ℤ) (cell x : ℕ) (xs : List ℕ)
    → lt_int priority (k.threads x).priority ≡ true
    → place k priority cell (x ∷ xs) ≡ place k priority (next_cell x) xs
unfolding place
place_lt k priority cell x xs h = rw h

place_ge :
    (k : Kernel) (priority : ℤ) (cell x : ℕ) (xs : List ℕ)
    → lt_int priority (k.threads x).priority ≡ false
    → place k priority cell (x ∷ xs) ≡ (cell, x)
unfolding place
place_ge k priority cell x xs h = rw h

pub insert_lt :
    (k : Kernel) (priority : ℤ) (t x : ℕ) (xs : List ℕ)
    → lt_int priority (k.threads x).priority ≡ true
    → insert k priority t (x ∷ xs) ≡ x ∷ insert k priority t xs
unfolding insert
insert_lt k priority t x xs h = rw h

pub insert_ge :
    (k : Kernel) (priority : ℤ) (t x : ℕ) (xs : List ℕ)
    → lt_int priority (k.threads x).priority ≡ false
    → insert k priority t (x ∷ xs) ≡ t ∷ x ∷ xs
unfolding insert
insert_ge k priority t x xs h = rw h

-- A cell that is neither the first, nor that of the pushed thread, nor of the queue, is kept.
splice_kept :
    (k : Kernel) (priority : ℤ) (thread cell c : ℕ) (xs : List ℕ)
    → c ≢ cell
    → c ≢ next_cell thread
    → Apart c xs
    → splice k.links thread (place k priority cell xs) c ≡ k.links c
unfolding place splice
splice_kept k priority thread cell c [] a b h = ground arith
splice_kept k priority thread cell c (x ∷ xs) a b h =
    ground (arith, splice_kept k priority thread (next_cell x) c xs)

splice_other :
    (l : ℕ → ℕ) (thread cell t c : ℕ)
    → c ≢ cell
    → c ≢ next_cell thread
    → splice l thread (cell, t) c ≡ l c
unfolding splice
splice_other l thread cell t c a b = ground arith

-- Behind the writes the chain has the thread at its place.
splice-Chain :
    (k : Kernel) (priority : ℤ) (thread cell : ℕ) (xs : List ℕ)
    → 1 < thread
    → has thread xs ≡ false
    → cell ≢ next_cell thread
    → Apart cell xs
    → Holds k.links cell xs
    → Holds (splice k.links thread (place k priority cell xs)) cell (insert k priority thread xs)
splice-Chain k priority thread cell [] big fresh apart away h =
    unfold place insert splice in ground arith
splice-Chain k priority thread cell (x ∷ xs) big fresh apart away h =
    elim (Bool-cases (lt_int priority (k.threads x).priority)) [
      | inl less ↦
          rw (place_lt k priority cell x xs less, insert_lt k priority thread x xs less)
            (
              splice_kept k priority thread (next_cell x) cell xs away.0 apart away.1 ∙ h.0,
              h.1,
              rw has-insert (ground arith),
              splice-Chain k priority thread (next_cell x) xs big (ground arith) (ground arith)
                  (Apart-next_cell x xs h.2) h.3,
            )
      | inr more ↦
          rw (place_ge k priority cell x xs more, insert_ge k priority thread x xs more)
            (
              unfold splice in ground arith,
              big,
              fresh,
              (
                unfold splice in ground arith,
                h.1,
                h.2,
                rw (splice_other k.links thread cell x (next_cell x) (ground arith) (ground arith))
                    (Chain-frame k.links (splice k.links thread (cell, x)) (k.links (next_cell x))
                      xs
                      (λ y m.
                        splice_other k.links thread cell x (next_cell y)
                          (ground (arith, Apart-mem cell y xs away.1 m))
                          (next_cell-ne-of_mem thread y xs (ground arith) m))
                      h.3),
              ),
            )
    ]

-- A thread whose priority is below those of the queue is placed at its end.
abbrev pub AllAbove : Kernel → ℤ → List ℕ → Type 0
AllAbove k p [] = Unit {0}
AllAbove k p (x ∷ xs) = (lt_int p (k.threads x).priority ≡ true) × AllAbove k p xs

place-end :
    (k : Kernel) (p : ℤ) (cell : ℕ) (xs : List ℕ)
    → AllAbove k p xs
    → Holds k.links cell xs
    → (k.links ((place k p cell xs).0) ≡ starting_state) × ((place k p cell xs).1 ≡ starting_state)
unfolding place
place-end k p cell [] above h = (h, refl)
place-end k p cell (x ∷ xs) above h = rw (above.0) (place-end k p (next_cell x) xs above.1 h.3)

push_thread-link :
    (k : Kernel) (queue thread : ℕ) (found : ℕ × ℕ)
    → (queue == null) ≡ false
    → (thread == null) ≡ false
    → push_walk walk_fuel k (k.threads thread).priority queue (k.links queue) ≡ ok found
    → push_thread queue thread k ≡ ok (link k queue thread found)
unfolding push_thread
push_thread-link k queue thread found a b e = rw (a, b, e)

IsQueue-ne : (queue : ℕ) → IsQueue queue → (queue == null) ≡ false
IsQueue-ne queue q = ground arith

-- What the push of the starting state leaves: its own link leads to itself, and all other cells
-- and all threads' records are as before, but for the queue of the starting state.
pub record PushedStart (k : Kernel) (queue : ℕ) (g : Kernel) : Type 0 where
  pub knot : next g starting_state ≡ starting_state
  pub kept : (c : ℕ) → c ≢ next_cell starting_state → g.links c ≡ k.links c
  pub queued :
      g.threads
      ≡ update k.threads starting_state (record (k.threads starting_state) { thread_queue = queue })
  pub current : g.current ≡ k.current

-- Pushing the starting state on a queue that is shorter than the walk, and whose threads have a
-- higher priority, returns and changes no cell but that of the starting state, which is linked to
-- itself.
pub push_thread-start :
    (k : Kernel) (queue : ℕ) (xs : List ℕ)
    → IsQueue queue
    → length xs < walk_fuel
    → AllAbove k (k.threads starting_state).priority xs
    → Holds k.links queue xs
    → (g : Kernel) × (push_thread queue starting_state k ≡ ok g) × PushedStart k queue g
unfolding link
push_thread-start k queue xs q room above h =
    let p = (k.threads starting_state).priority in
    let found = place k p queue xs in
    let ends = place-end k p queue xs above h in
    (
      link k queue starting_state found,
      push_thread-link k queue starting_state found (IsQueue-ne queue q) refl
          (push_walk-place walk_fuel k p queue (k.links queue) xs (lt_int-irrefl p) h room),
      record {
        knot = ground (arith, ends.1);
        kept = λ c a. ground (arith, ends.0);
        queued = refl;
        current = refl;
      },
    )
  where
    lt_int-irrefl : (a : ℤ) → lt_int a a ≡ false
    lt_int-irrefl a = ground arith

-- What a push leaves: the queue with the thread inserted, every cell that is none of the queue's
-- and not the thread's, and the thread's own record but for its queue.
pub record Pushed (k : Kernel) (queue thread : ℕ) (xs : List ℕ) (g : Kernel) : Type 0 where
  pub inserted : Holds g.links queue (insert k (k.threads thread).priority thread xs)
  pub kept : (c : ℕ) → c ≢ queue → c ≢ next_cell thread → Apart c xs → g.links c ≡ k.links c
  pub queued :
      g.threads ≡ update k.threads thread (record (k.threads thread) { thread_queue = queue })
  pub current : g.current ≡ k.current
  pub domain_access : g.domain_access ≡ k.domain_access

-- Pushing a thread on a queue that it does not stand in, that is shorter than the walk, and where it
-- has no lower priority than the starting state, returns and inserts the thread by priority. The
-- cells of other threads and queues stay as they were.
pub push_thread-Pushed :
    (k : Kernel) (queue thread : ℕ) (xs : List ℕ)
    → IsQueue queue
    → 1 < thread
    → has thread xs ≡ false
    → length xs < walk_fuel
    → lt_int (k.threads thread).priority (k.threads starting_state).priority ≡ false
    → Holds k.links queue xs
    → (g : Kernel) × (push_thread queue thread k ≡ ok g) × Pushed k queue thread xs g
unfolding link
push_thread-Pushed k queue thread xs q big fresh room low h = (
  link k queue thread found,
  push_thread-link k queue thread found (IsQueue-ne queue q) (ground arith)
      (push_walk-place walk_fuel k priority queue (k.links queue) xs low h room),
  record {
    inserted =
        unfold splice in
        splice-Chain k priority thread queue xs big fresh (omega arith) (Apart-queue queue xs q) h;
    kept = λ c a b away. unfold splice in splice_kept k priority thread queue c xs a b away;
    queued = refl;
    current = refl;
    domain_access = refl;
  },
)
  where
    priority : ℤ
    priority = (k.threads thread).priority

    found : ℕ × ℕ
    found = place k priority queue xs
