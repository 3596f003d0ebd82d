-- ===== src/Heaps/Freed.antt =====
-- `FreeOnHeap` of kernel/source/memory/heaps.c on a heap with a list of free blocks.
use star_struck.Base.{
  ℕ, suc, ◌-◌, ◌<◌, ◌^◌, ◌≡◌, refl, ◌∙◌, ap, ap₂, ◌>>=◌, ==_refl, Bool, true, false, Bool-cases,
  inl, inr, ltb, ltb→lt, leb, ◌==◌, ◌||◌, not, if◌then◌else◌, List, [], ◌∷◌, ◌++◌, arith, ok, pos,
}
use star_struck.Heaps.State.{HeapBlock, Heaps, null, heap_block_in_use, set_memory}
use star_struck.Heaps.Create.{no_heap}
use star_struck.Heaps.Mallocate.{walk_fuel}
use star_struck.Heaps.Free.{
  find_before, free_block, merge_around, merged, free_on_heap, is_outside, block_of, is_taken,
}
use star_struck.Heaps.Chain.{
  Span, Chain, Below, Chain-Away, Chain-suffix, Chain-Below, Below-trans, Chain-tail, Chain-before,
  Chain-list, Away-suffix,
}
use star_struck.Heaps.Merge.{join}
use star_struck.Heaps.Insert.{behind}
use star_struck.Heaps.Behind.{Settled, merge_around-Settled, merge_around-front}
use star_struck.Heaps.Release.{
  total-release, Below-precedes, find_before-stop, find_before-Located, Located, release-front,
}
use star_struck.Heaps.Links.{
  Freed, IsTaken, marked, free_block-insert, insert_block-front, insert_block-behind,
  marked-IsLoose, marked_away, marked-Chain,
}

Freed-front :
    (h : Heaps) (i c : ℕ) (x : Span) (xs : List Span)
    → IsTaken h i x xs
    → Below x.0 xs
    → find_before walk_fuel (marked h x.0) x.0 (h.heaps i).first_block ≡ ok c
    → ((c == null) || leb x.0 (h.heaps i).first_block) ≡ true
    → (g : Heaps) × (free_block i x.0 h ≡ ok g) × Freed h i x xs g
Freed-front h i c x xs t below found cond =
    let h1 = set_memory h (marked h x.0) in
    let r =
      merge_around-front (marked h x.0) (h.heaps i).first_block x xs (marked-IsLoose h i x xs t)
        below (marked-Chain h i x xs t) in
    (
      _,
      free_block-insert i x.0 c h found
          ∙ ap (λ g. ok (merged x.0 g)) (insert_block-front i x.0 c h1 cond),
      record {
        listed = rw (==_refl i, release-front x xs below) (r.0);
        bytes = total-release x xs;
        away = λ a ne away. r.1 a ne away ∙ marked_away h x.0 a ne;
        same_heap = rw (==_refl i) refl;
        other_heaps = λ j ne. ground arith;
      },
    )

Freed-behind :
    (h : Heaps) (i : ℕ) (x : Span) (xs : List Span)
    → IsTaken h i x xs
    → Located (marked h x.0) x.0 (h.heaps i).first_block xs walk_fuel
    → ((h.heaps i).first_block < x.0)
    → (g : Heaps) × (free_block i x.0 h ≡ ok g) × Freed h i x xs g
Freed-behind h i x xs t loc after =
    let m = marked h x.0 in
    let first = (h.heaps i).first_block in
    let h1 = set_memory h m in
    let c = loc.c in
    let whole : Chain m 0 first (loc.pre ++ c ∷ loc.post) =
      Chain-list m 0 first xs (loc.pre ++ c ∷ loc.post) loc.split (marked-Chain h i x xs t) in
    let settled : (q : ℕ)
        → Chain m q c.0 (c ∷ loc.post)
        → Settled m q c x loc.post (join c (join x loc.post))
            (merge_around x.0 (behind m x.0 c.0)) =
      λ q chain.
        merge_around-Settled m q c x loc.post (marked-IsLoose h i x xs t) loc.before
          (Below-precedes x.0 loc.post loc.below) chain in
    let suffix = Chain-suffix m 0 first loc.pre c loc.post whole in
    let at_q = settled suffix.0 suffix.1 in
    let some : 0 < c.0 = Chain-before m 0 first loc.pre c loc.post whole in
    (
      _,
      free_block-insert i x.0 c.0 h loc.found
          ∙ ap (λ g. ok (merged x.0 g))
              (insert_block-behind i x.0 c.0 h1 (ground (arith, some, after))),
      record {
        listed = rw (loc.released x.1) (
            Chain-tail m (merge_around x.0 (behind m x.0 c.0)) 0 first loc.pre c loc.post
              (join c (join x loc.post)) at_q.before whole (λ q chain. (settled q chain).chain));
        bytes = total-release x xs;
        away = λ a ne away.
            let r = Away-suffix a xs loc.pre c loc.post loc.split away in
            at_q.away a r.0 ne r.1 ∙ marked_away h x.0 a ne;
        same_heap = refl;
        other_heaps = λ j ne. refl;
      },
    )

find_before-null :
    (fuel : ℕ) (m : ℕ → HeapBlock) (b t : ℕ) → t ≡ null → find_before (suc fuel) m b t ≡ ok null
unfolding find_before
find_before-null fuel m b t e = rw e refl

-- The loop stops at once at a block behind the one to free.
stops :
    (m : ℕ → HeapBlock) (b p t : ℕ) (ys : List Span)
    → Below b ys
    → Chain m p t ys
    → ((t == null) || ltb b t) ≡ true
stops m b p t [] below h = rw h refl
stops m b p t (y ∷ ys) below h = let h0 = h.0 in ground arith

find_before-first :
    (fuel : ℕ) (m : ℕ → HeapBlock) (b t : ℕ) (y : Span) (ys : List Span)
    → b < y.0
    → Chain m 0 t (y ∷ ys)
    → find_before (suc fuel) m b t ≡ ok y.0
find_before-first fuel m b t y ys lt h = rw (h.0) (
    find_before-stop fuel b y.0 m (omega (arith, lt)) (
      stops m b y.0 (m y.0).next_block ys
        (Below-trans b y.0 ys lt (Chain-Below m y.0 (m y.0).next_block ys h.2)) h.2))

-- Giving back a block in use, in a heap with a list of free blocks that is shorter than the walk,
-- returns and puts the block into the list, merged with the neighbours that it touches.
pub free_block-Freed :
    (h : Heaps) (i : ℕ) (x : Span) (xs : List Span)
    → IsTaken h i x xs
    → (g : Heaps) × (free_block i x.0 h ≡ ok g) × Freed h i x xs g
free_block-Freed h i x [] t =
    Freed-front h i null x [] t tt
      (find_before-null (2 ^ 28 - 1) (marked h x.0) x.0 (h.heaps i).first_block t.chain) refl
free_block-Freed h i x (y ∷ ys) t =
    let m = marked h x.0 in
    let first = (h.heaps i).first_block in
    let chain = marked-Chain h i x (y ∷ ys) t in
    elim (Bool-cases (ltb x.0 y.0)) [
      | inl lt ↦
          Freed-front h i y.0 x (y ∷ ys) t (ltb→lt x.0 y.0 lt)
            (find_before-first (2 ^ 28 - 1) m x.0 first y ys (ltb→lt x.0 y.0 lt) chain)
            (ground (arith, chain.0, lt))
      | inr ge ↦
          let away = Chain-Away h.memory x.0 0 first (y ∷ ys) t.used t.chain in
          let after : y.0 < x.0 = ground (arith, away.0, ge) in
          Freed-behind h i x (y ∷ ys) t
            (find_before-Located walk_fuel m x.0 0 first y ys chain away after t.short)
            (omega (arith, after, chain.0))
    ]

last-branch :
    {A : Type 0} (a b c : Bool) (x y : A)
    → a ≡ false
    → b ≡ false
    → c ≡ false
    → (if a then x else if b then x else if c then x else y) ≡ y
last-branch a b c x y p q r = rw (p, q, r) refl

-- A pointer to a block in use passes the guards.
free_on_heap-free_block :
    (h g : Heaps) (i ptr b : ℕ)
    → (no_heap (pos i) h || (ptr == null)) ≡ false
    → is_outside i ptr h ≡ false
    → block_of ptr h.memory ≡ b
    → not (is_taken b h.memory) ≡ false
    → free_block i b h ≡ ok g
    → free_on_heap (pos i) ptr h ≡ ok (pos 0, g)
unfolding free_on_heap
free_on_heap-free_block h g i ptr b heap inside at_b used e =
    last-branch _ _ _ _ _ heap inside (ap (λ a. not (is_taken a h.memory)) at_b ∙ used)
    ∙ ap (λ a. free_block i a h >>= (λ g. ok (pos 0, g))) at_b
    ∙ ap (λ r. r >>= (λ g. ok (pos 0, g))) e

is_taken_used :
    (m : ℕ → HeapBlock) (b : ℕ)
    → 0 < b
    → (m b).block_state ≡ heap_block_in_use
    → not (is_taken b m) ≡ false
is_taken_used m b some used = ground (arith, some, used)

-- FreeOnHeap of a pointer that is not null into a heap of the table, to a block in use, where the free blocks are fewer
-- than the walk's rounds, returns 0 and puts the block into the list of free blocks by address, merged
-- with the neighbours that it touches. No byte is lost, and the other heaps and headers stay.
pub free_on_heap-release :
    (h : Heaps) (i ptr : ℕ) (x : Span) (xs : List Span)
    → no_heap (pos i) h ≡ false
    → 0 < ptr
    → is_outside i ptr h ≡ false
    → block_of ptr h.memory ≡ x.0
    → IsTaken h i x xs
    → (g : Heaps) × (free_on_heap (pos i) ptr h ≡ ok (pos 0, g)) × Freed h i x xs g
free_on_heap-release h i ptr x xs heap some_ptr inside at_x t =
    let r = free_block-Freed h i x xs t in
    let some : (ptr == null) ≡ false = ground (arith, some_ptr) in
    (
      r.0,
      free_on_heap-free_block h r.0 i ptr x.0 (ap₂ (λ a b. a || b) heap some) inside at_x
          (is_taken_used h.memory x.0 t.some_place t.used) r.1,
      r.2,
    )
