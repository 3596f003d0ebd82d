-- ===== src/Heaps/RoundTrip.antt =====
-- `AllocateOnHeap` and then `FreeOnHeap` of kernel/source/memory/heaps.c on a heap with one free block.
use star_struck.Base.{
  add_u32, sub_u32, ℕ, ◌+◌, ◌-◌, ◌%◌, ◌^◌, ◌<◌, ◌≤◌, ◌≡◌, ◌≢◌, refl, ==_refl, sym, ◌∙◌, ap, ap₂,
  false, ◌==◌, if◌then◌else◌, [], ◌∷◌, arith, ok, pos,
}
use star_struck.Heaps.State.{HeapBlock, HeapInfo, Heaps, null, heap_block_aligned, aligned_size_of}
use star_struck.Heaps.Create.{no_heap}
use star_struck.Heaps.Mallocate.{Search, is_refused, take_block, allocate_on_heap}
use star_struck.Heaps.Free.{free_on_heap, is_outside, block_of}
use star_struck.Heaps.Chain.{Span, Chain, Chain-list}
use star_struck.Heaps.Merge.{join}
use star_struck.Heaps.Release.{release, release-front}
use star_struck.Heaps.Links.{IsTaken}
use star_struck.Heaps.Freed.{free_on_heap-release}
use star_struck.Heaps.Search.{allocate-take}
use star_struck.Heaps.Headers.{taken-Headers}
use star_struck.Heaps.Taken.{find_block-single, taken, take_block-taken}

taken-heap :
    (i size a b z : ℕ) (h : Heaps)
    → (taken i size a b z h).heaps i ≡ record (h.heaps i) { first_block = b + (a + 0x20) }
unfolding taken
taken-heap i size a b z h = rw (==_refl i) refl

taken-other : (i size a b z j : ℕ) (h : Heaps) → j ≢ i → (taken i size a b z h).heaps j ≡ h.heaps j
unfolding taken
taken-other i size a b z j h ne = let e : (i == j) ≡ false = ground arith in rw e refl

no_heap-same :
    (i : ℕ) (h g : Heaps)
    → (g.heaps i).heap ≡ (h.heaps i).heap
    → no_heap (pos i) h ≡ false
    → no_heap (pos i) g ≡ false
no_heap-same i h g e n = rw e n

-- The pointer behind two headers leads to the block in use.
block_of-used :
    (b : ℕ) (m : ℕ → HeapBlock)
    → b + 0x20 < 2 ^ 32
    → (m (b + 0x10)).block_state ≡ heap_block_aligned
    → (m (b + 0x10)).next_block ≡ b
    → block_of (b + 0x20) m ≡ b
block_of-used b m word state next =
    let e : sub_u32 (b + 0x20) 0x10 ≡ b + 0x10 = omega (arith, word) in rw (e, state, next) refl

taken-IsTaken :
    (i size a : ℕ) (h : Heaps) (x : Span)
    → Chain h.memory 0 (h.heaps i).first_block (x ∷ [])
    → a + 0x20 < x.1
    → size ≤ a
    → IsTaken
        (taken i size a x.0 x.1 h)
        i
        (x.0, a + 0x20)
        ((x.0 + (a + 0x20), x.1 - (a + 0x20)) ∷ [])
taken-IsTaken i size a h x chain lt le =
    let r = taken-Headers i size a x.0 x.1 h chain.1.1 lt le in
    let first = ap (λ v. v.first_block) (taken-heap i size a x.0 x.1 h) in
    record {
      some_place = omega (arith, chain.1.0);
      bound = omega (arith, chain.1.1, lt);
      used = ap (λ v. v.block_state) r.used;
      size = ap (λ v. v.size) r.used;
      short = omega arith;
      chain = (
        first,
        (
          omega (arith, chain.1.0),
          omega (arith, chain.1.1, lt),
          ap (λ v. v.block_state) r.rest,
          ap (λ v. v.size) r.rest,
          ap (λ v. v.previous_block) r.rest ∙ chain.1.4,
        ),
        ap (λ v. v.next_block) r.rest ∙ chain.2,
      );
    }

release-cut :
    (x : Span) (n : ℕ) → 0 < n → n < x.1 → release (x.0, n) ((x.0 + n, x.1 - n) ∷ []) ≡ x ∷ []
unfolding join
release-cut x n some lt =
    let e : n + (x.1 - n) ≡ x.1 = omega (arith, lt) in
    release-front (x.0, n) ((x.0 + n, x.1 - n) ∷ []) (omega (arith, some))
    ∙ rw (==_refl (x.0 + n), e) refl

same_info :
    (i b : ℕ) (h g k : Heaps)
    → g.heaps i ≡ record (h.heaps i) { first_block = b }
    → k.heaps i ≡ record (g.heaps i) { first_block = (k.heaps i).first_block }
    → (k.heaps i).first_block ≡ (h.heaps i).first_block
    → k.heaps i ≡ h.heaps i
same_info i b h g k e f first =
    f ∙ ap₂ (λ (v : HeapInfo) (b : ℕ). record v { first_block = b }) e first

inside :
    (i ptr : ℕ) (g h : Heaps)
    → (g.heaps i).heap ≡ (h.heaps i).heap
    → (g.heaps i).heap_size ≡ (h.heaps i).heap_size
    → (h.heaps i).heap + (h.heaps i).heap_size < 2 ^ 32
    → (h.heaps i).heap + 0x10 ≤ ptr
    → ptr < (h.heaps i).heap + (h.heaps i).heap_size
    → is_outside i ptr g ≡ false
inside i ptr g h e z word low high =
    let start : add_u32 (h.heaps i).heap 0x10 ≡ (h.heaps i).heap + 0x10 =
      omega (arith, word, low, high) in
    let end : add_u32 (h.heaps i).heap (h.heaps i).heap_size
        ≡ (h.heaps i).heap + (h.heaps i).heap_size =
      omega (arith, word) in
    rw (e, z, start, end) (ground arith)

allocate_taken :
    (h : Heaps) (i size : ℕ) (x : Span)
    → is_refused (pos i) size 0x20 h ≡ false
    → Chain h.memory 0 (h.heaps i).first_block (x ∷ [])
    → x.0 % 0x20 ≡ 0
    → aligned_size_of size + 0x20 < x.1
    → allocate_on_heap (pos i) size h
      ≡ ok (x.0 + 0x20, taken i size (aligned_size_of size) x.0 x.1 h)
allocate_taken h i size x valid chain al lt =
    let a = aligned_size_of size in
    let s : Search = record { block_to_allocate = x.0; block_size = x.1; aligned_offset = 0x10 } in
    let some : (x.0 == null) ≡ false = let p = chain.1.0 in ground arith in
    let first = chain.1.4 in
    let last = chain.2 in
    allocate-take h i size s valid (
      find_block-single (2 ^ 28 - 2) h.memory a 0 (h.heaps i).first_block x chain al
        (omega (arith, lt)))
    ∙ ap (λ b. ok (if b then (null, h) else take_block i size a s h)) some
    ∙ ap (λ r. ok r) (take_block-taken i size a x.0 x.1 h chain.1.1 lt first last)

-- AllocateOnHeap with valid arguments on a heap whose end does not wrap around at 32 bits and whose one
-- free block stands at a multiple of 32 inside of the heap and has more than 63 bytes over the size, so
-- that a rest is left of it, returns the address 32 bytes behind the block's; FreeOnHeap of it
-- then returns 0, and the heap has the one free block again that it had, with no other heap changed.
pub allocate_on_heap-free_on_heap :
    (h : Heaps) (i size : ℕ) (x : Span)
    → is_refused (pos i) size 0x20 h ≡ false
    → no_heap (pos i) h ≡ false
    → Chain h.memory 0 (h.heaps i).first_block (x ∷ [])
    → x.0 % 0x20 ≡ 0
    → (h.heaps i).heap + (h.heaps i).heap_size < 2 ^ 32
    → (h.heaps i).heap ≤ x.0
    → x.0 + x.1 ≤ (h.heaps i).heap + (h.heaps i).heap_size
    → size + 0x3F < x.1
    → (g : Heaps) × (k : Heaps) × (allocate_on_heap (pos i) size h ≡ ok (x.0 + 0x20, g))
      × (free_on_heap (pos i) (x.0 + 0x20) g ≡ ok (pos 0, k))
      × Chain k.memory 0 (k.heaps i).first_block (x ∷ [])
      × (k.heaps i ≡ h.heaps i)
      × ((j : ℕ) → j ≢ i → k.heaps j ≡ h.heaps j)
allocate_on_heap-free_on_heap h i size x valid heap chain al word low high room =
    let a = aligned_size_of size in
    let le : size ≤ a = omega (arith, room, chain.1.1) in
    let lt : a + 0x20 < x.1 = omega (arith, room, chain.1.1) in
    let g = taken i size a x.0 x.1 h in
    let r = taken-Headers i size a x.0 x.1 h chain.1.1 lt le in
    let info = taken-heap i size a x.0 x.1 h in
    let xs = (x.0 + (a + 0x20), x.1 - (a + 0x20)) ∷ [] in
    let freed =
      free_on_heap-release g i (x.0 + 0x20) (x.0, a + 0x20) xs
        (no_heap-same i h g (ap (λ v. v.heap) info) heap) (omega arith)
        (inside i (x.0 + 0x20) g h (ap (λ v. v.heap) info) (ap (λ v. v.heap_size) info) word
          (omega (arith, low)) (omega (arith, high, lt)))
        (block_of-used x.0 g.memory (omega (arith, chain.1.1, lt)) r.aligned_state r.aligned_next)
        (taken-IsTaken i size a h x chain lt le) in
    let k = freed.0 in
    let listed : Chain k.memory 0 (k.heaps i).first_block (x ∷ []) =
      Chain-list k.memory 0 (k.heaps i).first_block (release (x.0, a + 0x20) xs) (x ∷ [])
        (release-cut x (a + 0x20) (omega arith) lt) freed.2.listed in
    (
      g,
      k,
      allocate_taken h i size x valid chain al lt,
      freed.1,
      listed,
      same_info i (x.0 + (a + 0x20)) h g k info freed.2.same_heap (listed.0 ∙ sym chain.0),
      λ j ne. freed.2.other_heaps j ne ∙ taken-other i size a x.0 x.1 j h ne,
    )
