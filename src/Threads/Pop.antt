-- ===== src/Threads/Pop.antt =====
-- `ThreadQueue_PopThread` and `ThreadQueue_RemoveThread` against lists.
use star_struck.Base.{
  ℕ, zero, suc, ◌<◌, ◌≡◌, ◌≢◌, refl, ◌∙◌, true, false, if◌then◌else◌, List, [], ◌∷◌, has, length,
  arith, ◌==◌, update, inl, inr, Bool-cases, ok,
}
use star_struck.Threads.State.{Kernel, next_cell, next, write_link}
use star_struck.Threads.Queue.{pop_thread, remove_thread, remove_walk, walk_fuel}
use star_struck.Threads.Chain.{
  Chain, Holds, IsQueue, Apart, Apart-queue, Apart-next_cell, Apart-mem, Chain-frame,
}

-- A write to a cell of none of its threads does not change a chain.
pub Chain-update :
    (l : ℕ → ℕ) (c v t : ℕ) (xs : List ℕ) → Apart c xs → Chain l t xs → Chain (update l c v) t xs
Chain-update l c v t xs away h =
    Chain-frame l (update l c v) t xs (λ x m. ground (arith, Apart-mem c x xs away m)) h

-- Popping a queue that holds a thread gives the first one and leaves the others.
pub pop_thread-cons :
    (k : Kernel) (queue x : ℕ) (xs : List ℕ)
    → IsQueue queue
    → Holds k.links queue (x ∷ xs)
    → (pop_thread queue k ≡ ok (x, write_link k queue (next k x)))
      × Holds (write_link k queue (next k x)).links queue xs
unfolding pop_thread
pop_thread-cons k queue x xs q h = (
  ground arith,
  (let e : update k.links queue (next k x) queue ≡ next k x = ground arith in
      rw e (Chain-update k.links queue (next k x) (next k x) xs (Apart-queue queue xs q) h.3)),
)

-- A list without its first entry `t`.
unfoldable pub erase : ℕ → List ℕ → List ℕ
erase t [] = []
erase t (x ∷ xs) = if x == t then xs else x ∷ erase t xs

-- The cell that leads to `t`.
cell_before : ℕ → ℕ → List ℕ → ℕ
cell_before t cell [] = cell
cell_before t cell (x ∷ xs) = if x == t then cell else cell_before t (next_cell x) xs

has-erase : (t y : ℕ) (xs : List ℕ) → has y xs ≡ false → has y (erase t xs) ≡ false
unfolding erase
has-erase t y [] h = refl
has-erase t y (x ∷ xs) h = ground (arith, has-erase t y xs)

cell_before_kept :
    (l : ℕ → ℕ) (t v cell c : ℕ) (xs : List ℕ)
    → c ≢ cell
    → Apart c xs
    → update l (cell_before t cell xs) v c ≡ l c
unfolding cell_before
cell_before_kept l t v cell c [] a h = ground arith
cell_before_kept l t v cell c (x ∷ xs) a h =
    ground (arith, cell_before_kept l t v (next_cell x) c xs)

remove_walk-ok :
    (fuel : ℕ) (k : Kernel) (t cell : ℕ) (xs : List ℕ)
    → has t xs ≡ true
    → length xs < fuel
    → Holds k.links cell xs
    → remove_walk fuel t cell (k.links cell) k
      ≡ ok (write_link k (cell_before t cell xs) (next k t))
unfolding remove_walk cell_before
remove_walk-ok zero k t cell xs m f h = absurd (omega arith)
remove_walk-ok (suc fuel) k t cell [] m f h = cc
remove_walk-ok (suc fuel) k t cell (x ∷ xs) m f h =
    ground (arith, remove_walk-ok fuel k t (next_cell x) xs)

erase_hit : (t x : ℕ) (xs : List ℕ) → (x == t) ≡ true → erase t (x ∷ xs) ≡ xs
unfolding erase
erase_hit t x xs h = rw h

erase_miss : (t x : ℕ) (xs : List ℕ) → (x == t) ≡ false → erase t (x ∷ xs) ≡ x ∷ erase t xs
unfolding erase
erase_miss t x xs h = rw h

cell_before_hit :
    (t cell x : ℕ) (xs : List ℕ) → (x == t) ≡ true → cell_before t cell (x ∷ xs) ≡ cell
unfolding cell_before
cell_before_hit t cell x xs h = rw h

cell_before_miss :
    (t cell x : ℕ) (xs : List ℕ)
    → (x == t) ≡ false
    → cell_before t cell (x ∷ xs) ≡ cell_before t (next_cell x) xs
unfolding cell_before
cell_before_miss t cell x xs h = rw h

erase-Chain :
    (l : ℕ → ℕ) (t cell c v : ℕ) (xs : List ℕ)
    → c ≡ cell_before t cell xs
    → v ≡ l (next_cell t)
    → has t xs ≡ true
    → Apart cell xs
    → Holds l cell xs
    → Holds (update l c v) cell (erase t xs)
erase-Chain l t cell c v [] e ev m away h = cc
erase-Chain l t cell c v (x ∷ xs) e ev m away h = elim (Bool-cases (x == t)) [
  | inl hit ↦
      let found : c ≡ cell = e ∙ cell_before_hit t cell x xs hit in
      let here : update l c v cell ≡ l (next_cell x) = ground arith in
      rw (erase_hit t x xs hit, here)
        (Chain-update l c v (l (next_cell x)) xs (rw found away.1) h.3)
  | inr miss ↦
      let later : c ≡ cell_before t (next_cell x) xs = e ∙ cell_before_miss t cell x xs miss in
      rw (erase_miss t x xs miss) (
        ground (arith, later, h.0, cell_before_kept l t v (next_cell x) cell xs away.0 away.1),
        h.1,
        has-erase t x xs h.2,
        erase-Chain l t (next_cell x) c v xs later ev (ground arith) (Apart-next_cell x xs h.2) h.3,
      )
]

-- Removing a thread that stands in the queue, which is shorter than the walk, returns and takes that
-- thread alone out. Cells of other queues and threads stay as they were.
remove_thread-erase :
    (k : Kernel) (queue t : ℕ) (xs : List ℕ)
    → IsQueue queue
    → has t xs ≡ true
    → length xs < walk_fuel
    → Holds k.links queue xs
    → (g : Kernel) × (remove_thread queue t k ≡ ok g)
      × Holds g.links queue (erase t xs)
      × ((c : ℕ) → c ≢ queue → Apart c xs → g.links c ≡ k.links c)
      × (g.threads ≡ k.threads)
unfolding remove_thread
remove_thread-erase k queue t xs q m f h = (
  write_link k (cell_before t queue xs) (next k t),
  ground (arith, remove_walk-ok walk_fuel k t queue xs m f h),
  erase-Chain k.links t queue (cell_before t queue xs) (next k t) xs refl refl m
      (Apart-queue queue xs q) h,
  (λ c a away. cell_before_kept k.links t (next k t) queue c xs a away),
  refl,
)
