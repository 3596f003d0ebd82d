-- ===== src/Heaps/Insert.antt =====
-- The linking of `FreeOnHeap` in kernel/source/memory/heaps.c: the block at the front of the list of
-- free blocks or behind one of them, and the merges with its neighbours.
use star_struck.Base.{
  ℕ, ◌+◌, ◌<◌, ◌^◌, ◌≡◌, ◌≢◌, refl, sym, ◌∙◌, ap, ==_refl, false, ◌==◌, List, ◌∷◌, arith,
}
use star_struck.Heaps.State.{HeapBlock, null, heap_block_init, set_next, set_previous}
use star_struck.Heaps.Mallocate.{link_back}
use star_struck.Heaps.Chain.{
  Span, IsFree, Chain, Below, Away, Chain-frame, Chain-start, IsFree-frame, link_back_kept,
  link_back-Away, link_back-Chain,
}

-- A block that is marked free and not yet in the list.
pub record IsLoose (m : ℕ → HeapBlock) (x : Span) : Type 0 where
  pub some_place : 0 < x.0
  pub bound : x.0 + x.1 < 2 ^ 32
  pub free : (m x.0).block_state ≡ heap_block_init
  pub size : (m x.0).size ≡ x.1

-- The block in front of the chain.
unfoldable pub front : (ℕ → HeapBlock) → ℕ → ℕ → ℕ → HeapBlock
front m b first = link_back (set_previous (set_next m b first) b null) b

-- The block behind the one at `c`.
unfoldable pub behind : (ℕ → HeapBlock) → ℕ → ℕ → ℕ → HeapBlock
behind m b c = link_back (set_next (set_next (set_previous m b c) b (m c).next_block) c b) b

-- A memory where a block's header is linked to a chain behind it.
pub linked-Chain :
    (m : ℕ → HeapBlock) (p q t : ℕ) (x : Span) (ys : List Span)
    → (m x.0).next_block ≡ t
    → IsFree m q x
    → Below x.0 ys
    → Chain m p t ys
    → Chain (link_back m x.0) q x.0 (x ∷ ys)
linked-Chain m p q t x ys n free below h =
    let h1 : Chain m p (m x.0).next_block ys = Chain-start m p t (m x.0).next_block ys (sym n) h in
    let e : link_back m x.0 x.0 ≡ m x.0 =
      link_back_kept m p x.0 x.0 x.0 ys below h1 (omega arith) in
    (refl, IsFree-frame m (link_back m x.0) q x e free, rw e (link_back-Chain m p x.0 ys below h1))

pub front-Chain :
    (m : ℕ → HeapBlock) (t : ℕ) (x : Span) (ys : List Span)
    → IsLoose m x
    → Below x.0 ys
    → Chain m 0 t ys
    → Chain (front m x.0 t) 0 x.0 (x ∷ ys)
unfolding front
front-Chain m t x ys loose below h =
    let m1 = set_previous (set_next m x.0 t) x.0 null in
    let e : m1 x.0 ≡ record (m x.0) { previous_block = null; next_block = t } =
      rw (==_refl x.0) refl in
    linked-Chain m1 0 0 t x ys (ap (λ v. v.next_block) e)
      (
        loose.some_place,
        loose.bound,
        ap (λ v. v.block_state) e ∙ loose.free,
        ap (λ v. v.size) e ∙ loose.size,
        ap (λ v. v.previous_block) e,
      )
      below (Chain-frame m m1 x.0 0 t ys below (λ a lt. ground arith) h)

pub front-Away :
    (m : ℕ → HeapBlock) (t a : ℕ) (x : Span) (ys : List Span)
    → a ≢ x.0
    → Below x.0 ys
    → Away a ys
    → Chain m 0 t ys
    → front m x.0 t a ≡ m a
unfolding front
front-Away m t a x ys ne below away h =
    let m1 = set_previous (set_next m x.0 t) x.0 null in
    let e : (m1 x.0).next_block ≡ t = rw (==_refl x.0) refl in
    let h1 : Chain m1 0 (m1 x.0).next_block ys =
      Chain-start m1 0 t (m1 x.0).next_block ys (sym e)
        (Chain-frame m m1 x.0 0 t ys below (λ a lt. ground arith) h) in
    link_back-Away m1 0 x.0 a ys h1 away
    ∙ (let ne2 : (x.0 == a) ≡ false = ground arith in rw ne2 refl)
