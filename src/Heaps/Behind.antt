-- ===== src/Heaps/Behind.antt =====
-- `FreeOnHeap` of kernel/source/memory/heaps.c where a block is linked behind another one.
use star_struck.Base.{ℕ, ◌<◌, ◌≡◌, ◌≢◌, refl, sym, ◌∙◌, ap, ==_refl, false, ◌==◌, List, ◌∷◌, arith}
use star_struck.Heaps.State.{HeapBlock, set_next, set_previous}
use star_struck.Heaps.Mallocate.{link_back}
use star_struck.Heaps.Free.{merge_next_block_if_unused, merge_around}
use star_struck.Heaps.Chain.{
  Span, IsFree-frame, Chain, Below, Away, Chain-frame, Chain-start, link_back_kept, link_back-Away,
}
use star_struck.Heaps.Merge.{join, merge-Merged, merge_null, join-previous, Away-join}
use star_struck.Heaps.Insert.{IsLoose, behind, linked-Chain, front, front-Chain, front-Away}

-- What an insertion behind `c` leaves: `zs` from `c` on.
pub record Settled (m : ℕ → HeapBlock) (q : ℕ) (c x : Span) (ys zs : List Span) (g : ℕ → HeapBlock)
    : Type 0 where
  pub chain : Chain g q c.0 zs
  pub before : (a : ℕ) → a < c.0 → g a ≡ m a
  pub away : (a : ℕ) → a ≢ c.0 → a ≢ x.0 → Away a ys → g a ≡ m a

pub behind-Settled :
    (m : ℕ → HeapBlock) (q : ℕ) (c x : Span) (ys : List Span)
    → IsLoose m x
    → c.0 < x.0
    → Below x.0 ys
    → Chain m q c.0 (c ∷ ys)
    → Settled m q c x ys (c ∷ x ∷ ys) (behind m x.0 c.0)
unfolding behind
behind-Settled m q c x ys loose lt below h =
    let b = x.0 in
    let u = (m c.0).next_block in
    let m1 = set_next (set_next (set_previous m b c.0) b u) c.0 b in
    let m2 = link_back m1 b in
    let ne : (c.0 == b) ≡ false = ground arith in
    let ne2 : (b == c.0) ≡ false = ground arith in
    let at_b : m1 b ≡ record (m b) { previous_block = c.0; next_block = u } =
      rw (ne, ==_refl b) refl in
    let at_c : m1 c.0 ≡ record (m c.0) { next_block = b } = rw (==_refl c.0, ne2) refl in
    let n : (m1 b).next_block ≡ u = ap (λ v. v.next_block) at_b in
    let c1 : Chain m1 c.0 u ys = Chain-frame m m1 b c.0 u ys below (λ a l. ground arith) h.2 in
    let c1n : Chain m1 c.0 (m1 b).next_block ys =
      Chain-start m1 c.0 u (m1 b).next_block ys (sym n) c1 in
    let c2 : Chain m2 c.0 b (x ∷ ys) =
      linked-Chain m1 c.0 c.0 u x ys n
        (
          lt,
          loose.bound,
          ap (λ v. v.block_state) at_b ∙ loose.free,
          ap (λ v. v.size) at_b ∙ loose.size,
          ap (λ v. v.previous_block) at_b,
        )
        below c1 in
    let e : m2 c.0 ≡ record (m c.0) { next_block = b } =
      link_back_kept m1 c.0 b b c.0 ys below c1n (omega (arith, lt)) ∙ at_c in
    record {
      chain = (
        refl,
        (
          h.1.0,
          h.1.1,
          ap (λ v. v.block_state) e ∙ h.1.2,
          ap (λ v. v.size) e ∙ h.1.3,
          ap (λ v. v.previous_block) e ∙ h.1.4,
        ),
        rw e c2,
      );
      before = λ a l.
          link_back_kept m1 c.0 b b a ys below c1n (omega (arith, l, lt))
          ∙ (let n1 : (c.0 == a) ≡ false = ground arith in
              let n2 : (b == a) ≡ false = ground arith in rw (n1, n2) refl);
      away = λ a na nb away.
          link_back-Away m1 c.0 b a ys c1n away
          ∙ (let n1 : (c.0 == a) ≡ false = ground arith in
              let n2 : (b == a) ≡ false = ground arith in rw (n1, n2) refl);
    }

-- The two merges behind the insertion.
pub merge_around-Settled :
    (m : ℕ → HeapBlock) (q : ℕ) (c x : Span) (ys : List Span)
    → IsLoose m x
    → c.0 < x.0
    → Below x.0 ys
    → Chain m q c.0 (c ∷ ys)
    → Settled m q c x ys (join c (join x ys)) (merge_around x.0 (behind m x.0 c.0))
merge_around-Settled m q c x ys loose lt below h =
    let m1 = behind m x.0 c.0 in
    let s = behind-Settled m q c x ys loose lt below h in
    let r = merge-Merged m1 c.0 x ys (refl, s.chain.2.1, s.chain.2.2) in
    let g1 = merge_next_block_if_unused x.0 m1 in
    let same : g1 c.0 ≡ m1 c.0 = r.before c.0 lt in
    let c1 : Chain g1 q c.0 (c ∷ join x ys) = (
      refl,
      IsFree-frame m1 g1 q c same s.chain.1,
      rw same (Chain-start g1 c.0 x.0 (m1 c.0).next_block (join x ys) (sym s.chain.2.0) r.chain),
    ) in
    let p : (g1 x.0).previous_block ≡ c.0 = join-previous g1 c.0 x.0 x ys r.chain in
    let r2 = merge-Merged g1 q c (join x ys) c1 in
    rw p (record {
      chain = r2.chain;
      before = λ a l. r2.before a l ∙ r.before a (omega (arith, l, lt)) ∙ s.before a l;
      away = λ a na nb away.
          r2.away a na (Away-join a x ys nb away) ∙ r.away a nb away ∙ s.away a na nb away;
    })

-- The same for a block at the front.
pub merge_around-front :
    (m : ℕ → HeapBlock) (t : ℕ) (x : Span) (ys : List Span)
    → IsLoose m x
    → Below x.0 ys
    → Chain m 0 t ys
    → Chain (merge_around x.0 (front m x.0 t)) 0 x.0 (join x ys)
      × ((a : ℕ) → a ≢ x.0 → Away a ys → merge_around x.0 (front m x.0 t) a ≡ m a)
merge_around-front m t x ys loose below h =
    let r = merge-Merged (front m x.0 t) 0 x ys (front-Chain m t x ys loose below h) in
    let g1 = merge_next_block_if_unused x.0 (front m x.0 t) in
    let p : (g1 x.0).previous_block ≡ 0 = join-previous g1 0 x.0 x ys r.chain in
    rw (p, merge_null g1)
      (r.chain, λ a ne away. r.away a ne away ∙ front-Away m t a x ys ne below away h)
