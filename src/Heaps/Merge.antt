-- ===== src/Heaps/Merge.antt =====
-- `MergeNextBlockIfUnused` of kernel/source/memory/heaps.c on the list of free blocks.
use star_struck.Base.{
  ℕ, ◌+◌, ◌<◌, ◌^◌, ◌≡◌, ◌≢◌, refl, ◌∙◌, ap, ==_refl, true, false, Bool-cases, ◌⊎◌, inl, inr, ◌==◌,
  if◌then◌else◌, List, [], ◌∷◌, arith, add_u32,
}
use star_struck.Heaps.State.{HeapBlock, null, set_next, set_size}
use star_struck.Heaps.Mallocate.{link_back}
use star_struck.Heaps.Free.{merge_next_block_if_unused}
use star_struck.Heaps.Chain.{
  Span, IsFree, Chain, Below, Away, Chain-Below, Below-trans, Chain-frame, Chain-start,
  link_back_kept, link_back-Away, link_back-Chain,
}

-- A free block with the one behind it, if they touch.
unfoldable pub join : Span → List Span → List Span
join x [] = x ∷ []
join x (y ∷ ys) = if x.0 + x.1 == y.0 then (x.0, x.1 + y.1) ∷ ys else x ∷ y ∷ ys

-- The memory where the block at `b` has been merged with the one at `d`.
swallow : ℕ → ℕ → (ℕ → HeapBlock) → ℕ → HeapBlock
swallow b d m =
    let m2 = link_back (set_next m b (m d).next_block) b in
    set_size m2 b (add_u32 (m b).size (m2 d).size)

-- What a merge leaves.
pub record Merged (m : ℕ → HeapBlock) (q : ℕ) (x : Span) (ys : List Span) (g : ℕ → HeapBlock)
    : Type 0 where
  pub chain : Chain g q x.0 (join x ys)
  pub before : (a : ℕ) → a < x.0 → g a ≡ m a
  pub away : (a : ℕ) → a ≢ x.0 → Away a ys → g a ≡ m a

same-Merged :
    (m : ℕ → HeapBlock) (q : ℕ) (x : Span) (ys : List Span)
    → join x ys ≡ x ∷ ys
    → Chain m q x.0 (x ∷ ys)
    → Merged m q x ys m
same-Merged m q x ys e h = record {
  chain = rw e h;
  before = λ a lt. refl;
  away = λ a ne away. refl;
}

-- The block `x`, linked to what is behind the block `y` and grown by its size.
grown-Chain :
    (m m2 : ℕ → HeapBlock) (q t : ℕ) (x y : Span) (ys : List Span)
    → x.0 + x.1 ≡ y.0
    → y.0 + y.1 < 2 ^ 32
    → IsFree m q x
    → m2 x.0 ≡ record (m x.0) { next_block = t }
    → (m2 y.0).size ≡ y.1
    → Chain m2 x.0 t ys
    → Chain (set_size m2 x.0 (add_u32 (m x.0).size (m2 y.0).size)) q x.0 ((x.0, x.1 + y.1) ∷ ys)
grown-Chain m m2 q t x y ys touch bound free at_x at_y h =
    let g = set_size m2 x.0 (add_u32 (m x.0).size (m2 y.0).size) in
    let size : add_u32 (m x.0).size (m2 y.0).size ≡ x.1 + y.1 =
      omega (arith, free.3, at_y, touch, bound) in
    let e : g x.0 ≡ record (m x.0) { next_block = t; size = x.1 + y.1 } =
      rw (==_refl x.0, at_x, size) refl in
    (
      refl,
      (
        free.0,
        omega (arith, touch, bound),
        ap (λ v. v.block_state) e ∙ free.2,
        ap (λ v. v.size) e,
        ap (λ v. v.previous_block) e ∙ free.4,
      ),
      rw e (Chain-frame m2 g x.0 x.0 t ys (Chain-Below m2 x.0 t ys h) (λ a lt. ground arith) h),
    )

swallow-Merged :
    (m : ℕ → HeapBlock) (q : ℕ) (x y : Span) (ys : List Span)
    → x.0 + x.1 ≡ y.0
    → Chain m q x.0 (x ∷ y ∷ ys)
    → Merged m q x (y ∷ ys) (swallow x.0 y.0 m)
unfolding swallow join
swallow-Merged m q x y ys touch h =
    let b = x.0 in
    let d = y.0 in
    let lt : b < d = h.2.1.0 in
    let t = (m d).next_block in
    let m1 = set_next m b t in
    let n : (m1 b).next_block ≡ t = rw (==_refl b) refl in
    let behind : Below d ys = Chain-Below m d t ys h.2.2 in
    let behind_b : Below b ys = Below-trans b d ys lt behind in
    let c1 : Chain m1 d (m1 b).next_block ys =
      rw n (Chain-frame m m1 b d t ys behind_b (λ a l. ground arith) h.2.2) in
    let m2 = link_back m1 b in
    let c2 : Chain m2 b t ys =
      Chain-start m2 b (m1 b).next_block t ys n (link_back-Chain m1 d b ys behind_b c1) in
    let at_b : m2 b ≡ m1 b = link_back_kept m1 d b d b ys behind c1 (omega (arith, lt)) in
    let at_d : m2 d ≡ m1 d = link_back_kept m1 d b d d ys behind c1 (omega arith) in
    let at_x : m2 b ≡ record (m b) { next_block = t } = at_b ∙ rw (==_refl b) refl in
    let ne : (b == d) ≡ false = ground arith in
    let at_y : (m2 d).size ≡ y.1 = ap (λ v. v.size) at_d ∙ rw ne (h.2.1.3) in
    record {
      chain =
          rw touch (rw (==_refl d) (grown-Chain m m2 q t x y ys touch h.2.1.1 h.1 at_x at_y c2));
      before = λ a l. ground (arith, link_back_kept m1 d b d a ys behind c1);
      away = λ a ne away. ground (arith, link_back-Away m1 d b a ys c1 away.1);
    }

merge_none :
    (m : ℕ → HeapBlock) (b : ℕ) → (m b).next_block ≡ null → merge_next_block_if_unused b m ≡ m
unfolding merge_next_block_if_unused
merge_none m b e = rw e (ground arith)

merge_apart :
    (m : ℕ → HeapBlock) (b : ℕ)
    → ((m b).next_block == add_u32 b (m b).size) ≡ false
    → merge_next_block_if_unused b m ≡ m
unfolding merge_next_block_if_unused
merge_apart m b e = rw e (ground arith)

merge-swallow :
    (m : ℕ → HeapBlock) (b d : ℕ)
    → 0 < b
    → 0 < d
    → (m b).next_block ≡ d
    → (d == add_u32 b (m b).size) ≡ true
    → merge_next_block_if_unused b m ≡ swallow b d m
unfolding merge_next_block_if_unused swallow
merge-swallow m b d pos_b pos_d n e =
    let e1 : (b == null) ≡ false = ground arith in
    let e2 : (d == null) ≡ false = ground arith in rw (n, e1, e2, e) refl

pub merge-Merged :
    (m : ℕ → HeapBlock) (q : ℕ) (x : Span) (ys : List Span)
    → Chain m q x.0 (x ∷ ys)
    → Merged m q x ys (merge_next_block_if_unused x.0 m)
unfolding join merge_next_block_if_unused
merge-Merged m q x [] h = rw (merge_none m x.0 h.2) (same-Merged m q x [] refl h)
merge-Merged m q x (y ∷ ys) h = elim (Bool-cases (x.0 + x.1 == y.0)) [
  | inl touch ↦
      rw
        (merge-swallow m x.0 y.0 (omega (arith, h.1.0)) (omega (arith, h.2.1.0)) h.2.0
          (ground (arith, h.1.1, h.1.3, touch)))
        (swallow-Merged m q x y ys (ground arith) h)
  | inr apart ↦
      rw (merge_apart m x.0 (ground (arith, h.2.0, h.1.1, h.1.3, apart)))
        (same-Merged m q x (y ∷ ys) (rw apart refl) h)
]

pub merge_null : (m : ℕ → HeapBlock) → merge_next_block_if_unused null m ≡ m
unfolding merge_next_block_if_unused
merge_null m = refl

-- The merged block stands at the same place behind the same block.
pub join-previous :
    (m : ℕ → HeapBlock) (q t : ℕ) (x : Span) (ys : List Span)
    → Chain m q t (join x ys)
    → (m x.0).previous_block ≡ q
unfolding join
join-previous m q t x [] h = h.1.4
join-previous m q t x (y ∷ ys) h = go (Bool-cases (x.0 + x.1 == y.0))
  where
    go : ((x.0 + x.1 == y.0) ≡ true) ⊎ ((x.0 + x.1 == y.0) ≡ false) → (m x.0).previous_block ≡ q
    go (inl e) = let r = rw e at h in r.1.4
    go (inr e) = let r = rw e at h in r.1.4

pub Away-join : (a : ℕ) (x : Span) (ys : List Span) → a ≢ x.0 → Away a ys → Away a (join x ys)
unfolding join
Away-join a x [] ne away = (ne, tt)
Away-join a x (y ∷ ys) ne away = elim (Bool-cases (x.0 + x.1 == y.0)) [
  | inl e ↦ rw e (ne, away.1)
  | inr e ↦ rw e (ne, away)
]
