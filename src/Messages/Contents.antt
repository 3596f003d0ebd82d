-- ===== src/Messages/Contents.antt =====
-- What a message queue holds: its messages, the oldest first.
use star_struck.Base.{
  ℕ, zero, suc, ◌+◌, ◌-◌, ◌*◌, ◌%◌, ◌^◌, ◌≤◌, ◌<◌, ◌≡◌, ◌≢◌, refl, ap, ap₂, sym, inl, inr,
  Bool-cases, ◌∙◌, List, [], ◌∷◌, ◌++◌, leb, if◌then◌else◌, update, length, arith,
}
use star_struck.Messages.State.{MessageQueue, System}

-- An index below twice the size, taken round.
abbrev pub wrapped : ℕ → ℕ → ℕ
wrapped size i = if leb size i then i - size else i

-- The address of a place in the ring.
abbrev pub address : ℕ → ℕ → ℕ → ℕ
address heap size i = (heap + 4 * wrapped size i) % 2 ^ 32

-- The `n` words from index `i` on.
unfoldable pub window : (ℕ → ℕ) → ℕ → ℕ → ℕ → ℕ → List ℕ
window memory heap size i zero = []
window memory heap size i (suc n) = memory (address heap size i) ∷ window memory heap size (i + 1) n

abbrev pub contents : System → ℕ → List ℕ
contents s m = let q = s.queues m in window s.memory q.queue_heap q.queue_size q.first q.used

-- The ring lies in the address space, and its indices in the ring.
pub record IsValid (q : MessageQueue) : Type 0 where
  pub bounded : q.used ≤ q.queue_size
  pub started : q.first < q.queue_size
  pub mapped : q.queue_heap + 4 * q.queue_size ≤ 2 ^ 32

pub length-window : (memory : ℕ → ℕ) (heap size i n : ℕ) → length (window memory heap size i n) ≡ n
unfolding window
length-window memory heap size i zero = refl
length-window memory heap size i (suc n) = ap suc (length-window memory heap size (i + 1) n)

pub window-snoc :
    (memory : ℕ → ℕ) (heap size i n : ℕ)
    → window memory heap size i (suc n)
      ≡ window memory heap size i n ++ (memory (address heap size (i + n)) ∷ [])
unfolding window
window-snoc memory heap size i zero = let e : i + 0 ≡ i = omega arith in rw e refl
window-snoc memory heap size i (suc n) =
    let e : i + 1 + n ≡ i + suc n = omega arith in
    ap (λ l. memory (address heap size i) ∷ l)
      (window-snoc memory heap size (i + 1) n
        ∙ ap (λ j. window memory heap size (i + 1) n ++ (memory (address heap size j) ∷ [])) e)

update_other : (memory : ℕ → ℕ) (c a v : ℕ) → c ≢ a → update memory a v c ≡ memory c
update_other memory c a v h = ground arith

address_round : (heap size i : ℕ) → i < size → address heap size (size + i) ≡ address heap size i
address_round heap size i h = ground arith

-- A window reads its own places only.
pub window_frame :
    (memory : ℕ → ℕ) (heap size i n a v : ℕ)
    → ((j : ℕ) → j < n → address heap size (i + j) ≢ a)
    → window (update memory a v) heap size i n ≡ window memory heap size i n
unfolding window
window_frame memory heap size i zero a v apart = refl
window_frame memory heap size i (suc n) a v apart =
    ap₂ ◌∷◌ (update_other memory (address heap size i) a v (ground (arith, apart 0)))
      (window_frame memory heap size (i + 1) n a v (λ j lt. ground (arith, apart (suc j))))

-- A window that begins behind the last index is one that begins round the ring.
pub window_round :
    (memory : ℕ → ℕ) (heap size i n : ℕ)
    → i + n ≤ size
    → window memory heap size (size + i) n ≡ window memory heap size i n
unfolding window
window_round memory heap size i zero h = refl
window_round memory heap size i (suc n) h =
    ap₂ ◌∷◌ (ap memory (address_round heap size i (omega arith))) (
      let e : size + i + 1 ≡ size + (i + 1) = omega arith in
      ap (λ j. window memory heap size j n) e
      ∙ window_round memory heap size (i + 1) n (omega arith))

-- Two places of a ring that are less than its size apart are not the same.
pub address-ne :
    (heap size i j : ℕ)
    → heap + 4 * size ≤ 2 ^ 32
    → i < size
    → j < size
    → (k : ℕ) → k < j
    → address heap size (i + k) ≢ address heap size (i + j)
address-ne heap size i j fits hi hj k hk = ground arith

-- An index that stands just behind the ring may be taken round.
pub window-wrapped :
    (memory : ℕ → ℕ) (heap size i n : ℕ)
    → i ≤ size
    → n ≤ size
    → window memory heap size (wrapped size i) n ≡ window memory heap size i n
window-wrapped memory heap size i n hi hn = elim (Bool-cases (leb size i)) [
  | inl end ↦
      let zero_left : i - size ≡ 0 = ground arith in
      let behind : i ≡ size + 0 = ground arith in
      rw end (
        ap (λ j. window memory heap size j n) zero_left
        ∙ sym (window_round memory heap size 0 n (omega arith))
        ∙ ap (λ j. window memory heap size j n) (sym behind))
  | inr inside ↦ rw inside
]

pub window-cons :
    (memory : ℕ → ℕ) (heap size i n : ℕ)
    → window memory heap size i (suc n)
      ≡ memory (address heap size i) ∷ window memory heap size (i + 1) n
unfolding window
window-cons memory heap size i n = refl
