-- ===== src/Threads/Chain.antt =====
-- What a thread queue stands for: the threads from its first cell on, up to
-- `&ThreadStartingState`.
use star_struck.Base.{ℕ, ◌<◌, ◌%◌, ◌≡◌, ◌≢◌, true, false, List, [], ◌∷◌, has, arith}
use star_struck.Threads.State.{starting_state, next_cell}

-- The distinct threads `xs` stand in a row from `t` on.
abbrev pub Chain : (ℕ → ℕ) → ℕ → List ℕ → Type 0
Chain l t [] = t ≡ starting_state
Chain l t (x ∷ xs) = (t ≡ x) × (1 < x) × (has x xs ≡ false) × Chain l (l (next_cell x)) xs

abbrev pub Holds : (ℕ → ℕ) → ℕ → List ℕ → Type 0
Holds l queue xs = Chain l (l queue) xs

-- `c` is the `NextThread` cell of none of `xs`.
abbrev pub Apart : ℕ → List ℕ → Type 0
Apart c [] = Unit {0}
Apart c (x ∷ xs) = (c ≢ next_cell x) × Apart c xs

-- Queues stand at odd addresses.
abbrev pub IsQueue : ℕ → Type 0
IsQueue c = c % 2 ≡ 1

pub Apart-queue : (c : ℕ) (xs : List ℕ) → IsQueue c → Apart c xs
Apart-queue c [] q = tt
Apart-queue c (x ∷ xs) q = (omega arith, Apart-queue c xs q)

pub Apart-next_cell : (t : ℕ) (xs : List ℕ) → has t xs ≡ false → Apart (next_cell t) xs
Apart-next_cell t [] h = tt
Apart-next_cell t (x ∷ xs) h = (ground arith, Apart-next_cell t xs (ground arith))

pub Apart-mem : (c y : ℕ) (xs : List ℕ) → Apart c xs → has y xs ≡ true → c ≢ next_cell y
Apart-mem c y [] a m = cc
Apart-mem c y (x ∷ xs) a m = ground (arith, a.0, Apart-mem c y xs a.1)

pub next_cell-ne-of_mem :
    (t y : ℕ) (xs : List ℕ) → has t xs ≡ false → has y xs ≡ true → next_cell y ≢ next_cell t
next_cell-ne-of_mem t y [] h m = cc
next_cell-ne-of_mem t y (x ∷ xs) h m = ground (arith, next_cell-ne-of_mem t y xs)

-- A chain reads the cells of its own threads only.
pub Chain-frame :
    (l g : ℕ → ℕ) (t : ℕ) (xs : List ℕ)
    → ((x : ℕ) → has x xs ≡ true → g (next_cell x) ≡ l (next_cell x))
    → Chain l t xs
    → Chain g t xs
Chain-frame l g t [] same h = h
Chain-frame l g t (x ∷ xs) same h = (
  h.0,
  h.1,
  h.2,
  rw (same x (ground arith))
      (Chain-frame l g (l (next_cell x)) xs (λ y m. same y (ground arith)) h.3),
)
