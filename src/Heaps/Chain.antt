-- ===== src/Heaps/Chain.antt =====
-- What a heap's list of free blocks stands for: the blocks' addresses and sizes in the order of the
-- addresses, linked in both directions.
use star_struck.Base.{
  ℕ, ◌+◌, ◌<◌, ◌≤◌, ◌^◌, ◌≡◌, ◌≢◌, refl, sym, ◌∙◌, ap, update, List, [], ◌∷◌, ◌++◌, arith,
}
use star_struck.Heaps.State.{HeapBlock, null, heap_block_init, heap_block_in_use}
use star_struck.Heaps.Mallocate.{link_back}

-- The address and the size of a free block.
abbrev pub Span : Type 0
Span = ℕ × ℕ

-- The header of a free block behind the one at `p`, 0 for none.
abbrev pub IsFree : (ℕ → HeapBlock) → ℕ → Span → Type 0
IsFree m p x =
    (p < x.0)
    × (x.0 + x.1 < 2 ^ 32)
    × ((m x.0).block_state ≡ heap_block_init)
    × ((m x.0).size ≡ x.1)
    × ((m x.0).previous_block ≡ p)

-- The blocks `xs` stand in a row from `t` on, behind the one at `p`.
abbrev pub Chain : (ℕ → HeapBlock) → ℕ → ℕ → List Span → Type 0
Chain m p t [] = t ≡ null
Chain m p t (x ∷ xs) = (t ≡ x.0) × IsFree m p x × Chain m x.0 (m x.0).next_block xs

-- The first block is behind `b`.
abbrev pub Below : ℕ → List Span → Type 0
Below b [] = Unit {0}
Below b (x ∷ xs) = b < x.0

-- No block is at `a`.
abbrev pub Away : ℕ → List Span → Type 0
Away a [] = Unit {0}
Away a (x ∷ xs) = (a ≢ x.0) × Away a xs

pub Chain-Below : (m : ℕ → HeapBlock) (p t : ℕ) (xs : List Span) → Chain m p t xs → Below p xs
Chain-Below m p t [] h = tt
Chain-Below m p t (x ∷ xs) h = h.1.0

pub Below-trans : (a b : ℕ) (xs : List Span) → a < b → Below b xs → Below a xs
Below-trans a b [] lt h = tt
Below-trans a b (x ∷ xs) lt h = omega (arith, lt, h)

pub IsFree-frame :
    (m g : ℕ → HeapBlock) (p : ℕ) (x : Span) → g x.0 ≡ m x.0 → IsFree m p x → IsFree g p x
IsFree-frame m g p x same h = (
  h.0,
  h.1,
  ap (λ v. v.block_state) same ∙ h.2,
  ap (λ v. v.size) same ∙ h.3,
  ap (λ v. v.previous_block) same ∙ h.4,
)

-- A chain reads the headers of its own blocks only.
pub Chain-frame :
    (m g : ℕ → HeapBlock) (b p t : ℕ) (xs : List Span)
    → Below b xs
    → ((a : ℕ) → b < a → g a ≡ m a)
    → Chain m p t xs
    → Chain g p t xs
Chain-frame m g b p t [] below same h = h
Chain-frame m g b p t (x ∷ xs) below same h =
    let e : g x.0 ≡ m x.0 = same x.0 below in
    (
      h.0,
      IsFree-frame m g p x e h.1,
      rw e (
          Chain-frame m g x.0 x.0 (m x.0).next_block xs
            (Chain-Below m x.0 (m x.0).next_block xs h.2)
            (λ a lt. same a (omega (arith, lt, below))) h.2),
    )

pub Chain-start :
    (m : ℕ → HeapBlock) (p u t : ℕ) (xs : List Span) → u ≡ t → Chain m p u xs → Chain m p t xs
Chain-start m p u t xs e h = rw (sym e) h

-- No block of a chain is at the header that is written.
pub Chain-update :
    (m : ℕ → HeapBlock) (b : ℕ) (v : HeapBlock) (p t : ℕ) (xs : List Span)
    → Away b xs
    → Chain m p t xs
    → Chain (update m b v) p t xs
Chain-update m b v p t [] away h = h
Chain-update m b v p t (x ∷ xs) away h =
    let e : update m b v x.0 ≡ m x.0 = ground (arith, away.0) in
    (
      h.0,
      IsFree-frame m (update m b v) p x e h.1,
      rw e (Chain-update m b v x.0 (m x.0).next_block xs away.1 h.2),
    )

-- A block in use is not in the list.
pub Chain-Away :
    (m : ℕ → HeapBlock) (b p t : ℕ) (xs : List Span)
    → (m b).block_state ≡ heap_block_in_use
    → Chain m p t xs
    → Away b xs
Chain-Away m b p t [] used h = tt
Chain-Away m b p t (x ∷ xs) used h = (
  λ e. let h2 = h.1.2 in absurd (in_use-ne-init (sym used ∙ ap (λ a. (m a).block_state) e ∙ h2)),
  Chain-Away m b x.0 (m x.0).next_block xs used h.2,
)
  where
    in_use-ne-init : heap_block_in_use ≢ heap_block_init
    in_use-ne-init e = omega (arith, e)

-- The chain from one of its blocks on.
pub Chain-suffix :
    (m : ℕ → HeapBlock) (p t : ℕ) (xs : List Span) (c : Span) (ys : List Span)
    → Chain m p t (xs ++ c ∷ ys)
    → (q : ℕ) × Chain m q c.0 (c ∷ ys)
Chain-suffix m p t [] c ys h = (p, (refl, h.1, h.2))
Chain-suffix m p t (x ∷ xs) c ys h = Chain-suffix m x.0 (m x.0).next_block xs c ys h.2

pub Chain-list :
    (m : ℕ → HeapBlock) (p t : ℕ) (xs ys : List Span) → xs ≡ ys → Chain m p t xs → Chain m p t ys
Chain-list m p t xs ys e h = rw (sym e) h

pub Away-suffix :
    (a : ℕ) (zs xs : List Span) (c : Span) (ys : List Span)
    → zs ≡ xs ++ c ∷ ys
    → Away a zs
    → (a ≢ c.0) × Away a ys
Away-suffix a zs xs c ys e away = go xs (rw (sym e) away)
  where
    go : (xs : List Span) → Away a (xs ++ c ∷ ys) → (a ≢ c.0) × Away a ys
    go [] h = h
    go (x ∷ xs) h = go xs h.1

-- The blocks of a chain come before a later one.
pub Chain-before :
    (m : ℕ → HeapBlock) (p t : ℕ) (xs : List Span) (c : Span) (ys : List Span)
    → Chain m p t (xs ++ c ∷ ys)
    → p < c.0
Chain-before m p t [] c ys h = h.1.0
Chain-before m p t (x ∷ xs) c ys h =
    let r = Chain-before m x.0 (m x.0).next_block xs c ys h.2 in omega (arith, h.1.0, r)

-- A change from the block `c` on leaves the blocks before it alone.
pub Chain-tail :
    (m g : ℕ → HeapBlock) (p t : ℕ) (xs : List Span) (c : Span) (ys zs : List Span)
    → ((a : ℕ) → a < c.0 → g a ≡ m a)
    → Chain m p t (xs ++ c ∷ ys)
    → ((q : ℕ) → Chain m q c.0 (c ∷ ys) → Chain g q c.0 zs)
    → Chain g p t (xs ++ zs)
Chain-tail m g p t [] c ys zs same h change = rw (h.0) (change p (refl, h.1, h.2))
Chain-tail m g p t (x ∷ xs) c ys zs same h change =
    let e : g x.0 ≡ m x.0 = same x.0 (Chain-before m x.0 (m x.0).next_block xs c ys h.2) in
    (
      h.0,
      IsFree-frame m g p x e h.1,
      rw e (Chain-tail m g x.0 (m x.0).next_block xs c ys zs same h.2 change),
    )

-- The link back from the next block writes no header up to `e`, and none but that of the next block.
pub link_back_kept :
    (m : ℕ → HeapBlock) (p b e a : ℕ) (ys : List Span)
    → Below e ys
    → Chain m p (m b).next_block ys
    → a ≤ e
    → link_back m b a ≡ m a
link_back_kept m p b e a [] below h le = rw h refl
link_back_kept m p b e a (y ∷ ys) below h le =
    let h0 = h.0 in let pos = h.1.0 in rw h0 (ground arith)

pub link_back-Away :
    (m : ℕ → HeapBlock) (p b a : ℕ) (ys : List Span)
    → Chain m p (m b).next_block ys
    → Away a ys
    → link_back m b a ≡ m a
link_back-Away m p b a [] h away = rw h refl
link_back-Away m p b a (y ∷ ys) h away =
    let h0 = h.0 in let pos = h.1.0 in let ne = away.0 in rw h0 (ground arith)

-- Behind it the chain stands behind the block `b`.
pub link_back-Chain :
    (m : ℕ → HeapBlock) (p b : ℕ) (ys : List Span)
    → Below b ys
    → Chain m p (m b).next_block ys
    → Chain (link_back m b) b (m b).next_block ys
link_back-Chain m p b [] below h = h
link_back-Chain m p b (y ∷ ys) below h =
    let g = link_back m b in
    let e : g y.0 ≡ record (m y.0) { previous_block = b } =
      let h0 = h.0 in let pos = h.1.0 in rw h0 (ground arith) in
    (
      h.0,
      (
        below,
        h.1.1,
        ap (λ v. v.block_state) e ∙ h.1.2,
        ap (λ v. v.size) e ∙ h.1.3,
        ap (λ v. v.previous_block) e,
      ),
      rw e (
          Chain-frame m g y.0 y.0 (m y.0).next_block ys
            (Chain-Below m y.0 (m y.0).next_block ys h.2)
            (λ a lt. let h0 = h.0 in let pos = h.1.0 in rw h0 (ground arith)) h.2),
    )
