-- ===== src/Heaps/Taken.antt =====
-- `MallocateOnHeap` of kernel/source/memory/heaps.c on a heap with one free block: the writes to the
-- headers.
use star_struck.Base.{
  ℕ, suc, ◌+◌, ◌-◌, ◌%◌, ◌^◌, ◌<◌, ◌≡◌, refl, ==_refl, ◌∙◌, ap, true, false, none, ltb, leb, ◌==◌,
  ◌&&◌, if◌then◌else◌, update, [], ◌∷◌, arith, ok, add_u32, sub_u32,
}
use star_struck.Heaps.State.{
  HeapBlock, Heaps, null, heap_block_init, set_size, set_info, set_memory, clear_memory,
}
use star_struck.Heaps.Mallocate.{
  Search, look_at, is_exact, find_block, split_block, unlink_block, mark_in_use, take_block,
}
use star_struck.Heaps.Chain.{Span, Chain}
use star_struck.Heaps.Best.{offset_of-aligned, better}
use star_struck.Heaps.Search.{start}
use star_struck.Heaps.Loop.{
  Held, find_block-null, find_block-next, look_at-better, is_exact-at, exact_size,
}

-- The search on a list of one block that has room and is not of the very size.
pub find_block-single :
    (fuel : ℕ) (m : ℕ → HeapBlock) (a p t : ℕ) (x : Span)
    → Chain m p t (x ∷ [])
    → x.0 % 0x20 ≡ 0
    → add_u32 a 0x10 < x.1
    → find_block (suc (suc fuel)) m a 0x20 t start
      ≡ ok (record { block_to_allocate = x.0; block_size = x.1; aligned_offset = 0x10 })
unfolding start Held better
find_block-single fuel m a p t x h al lt =
    let first : 0 < x.0 = omega (arith, h.1.0) in
    let b : leb (add_u32 a 0x10) x.1 ≡ true = ground arith in
    let s : Search = record { block_to_allocate = null; block_size = 0; aligned_offset = 0 } in
    let s1 : Search = record { block_to_allocate = x.0; block_size = x.1; aligned_offset = 0x10 } in
    let e : look_at m a 0x20 x.0 s ≡ s1 =
      look_at-better m a x s none (offset_of-aligned x.0 al (omega (arith, h.1.1))) h.1.3 refl
      ∙ ap
          (λ b. record {
            block_to_allocate = if b && true then x.0 else null;
            block_size = x.1;
            aligned_offset = 0x10;
          })
          b in
    let other : (x.1 == add_u32 a 0x10) ≡ false = ground arith in
    let on : is_exact m a (look_at m a 0x20 x.0 s) ≡ false =
      is_exact-at m a x.0 (look_at m a 0x20 x.0 s) (ap (λ r. r.block_to_allocate) e)
        (ap (λ r. r.aligned_offset) e)
      ∙ exact_size m (add_u32 a 0x10) x.0 x.1 first h.1.3
      ∙ other in
    ap (λ t. find_block (suc (suc fuel)) m a 0x20 t s) h.0
    ∙ find_block-next (suc fuel) a 0x20 x.0 m s first on
    ∙ find_block-null fuel a 0x20 (m x.0).next_block m (look_at m a 0x20 x.0 s) h.2
    ∙ ap (λ r. ok r) e

-- The memory where the block at `b` has been cut behind `n` bytes.
unfoldable pub cut : (ℕ → HeapBlock) → ℕ → ℕ → ℕ → ℕ → HeapBlock
cut m b n z = update (set_size m b n) (b + n) (record {
  block_state = heap_block_init;
  size = z - n;
  previous_block = (m b).previous_block;
  next_block = (m b).next_block;
})

split_block-cut :
    (m : ℕ → HeapBlock) (a b z : ℕ)
    → b + z < 2 ^ 32
    → a + 0x20 < z
    → split_block m a (record { block_to_allocate = b; block_size = z; aligned_offset = 0x10 })
      ≡ (b + (a + 0x20), cut m b (a + 0x20) z)
unfolding split_block cut
split_block-cut m a b z bound lt =
    let n : add_u32 (add_u32 a 0x10) 0x10 ≡ a + 0x20 = omega (arith, bound, lt) in
    let l : ltb (a + 0x20) z ≡ true = ground arith in
    let e : add_u32 b (a + 0x20) ≡ b + (a + 0x20) = omega (arith, bound, lt) in
    let k : sub_u32 z (a + 0x20) ≡ z - (a + 0x20) = omega (arith, bound, lt) in
    rw (n, l, e, k, ==_refl b) refl

unlink_block-only :
    (i b free : ℕ) (h : Heaps)
    → (h.memory b).previous_block ≡ null
    → (h.memory free).next_block ≡ null
    → unlink_block i b free h ≡ set_info h i (record (h.heaps i) { first_block = free })
unfolding unlink_block
unlink_block-only i b free h p n = rw (p, n) refl

-- The state behind the allocation of `a` bytes for `size` in the block at `b`.
unfoldable pub taken : ℕ → ℕ → ℕ → ℕ → ℕ → Heaps → Heaps
taken i size a b z h = record h {
  heaps = update h.heaps i (record (h.heaps i) { first_block = b + (a + 0x20) });
  memory = clear_memory (b + 0x20) size (mark_in_use b 0x10 (cut h.memory b (a + 0x20) z));
}

pub cut-rest :
    (m : ℕ → HeapBlock) (b n z : ℕ)
    → cut m b n z (b + n) ≡ record {
      block_state = heap_block_init;
      size = z - n;
      previous_block = (m b).previous_block;
      next_block = (m b).next_block;
    }
unfolding cut
cut-rest m b n z = rw (==_refl (b + n)) refl

pub cut-first : (m : ℕ → HeapBlock) (b n z : ℕ) → 0 < n → cut m b n z b ≡ record (m b) { size = n }
unfolding cut
cut-first m b n z lt = let e : (b + n == b) ≡ false = ground arith in rw (e, ==_refl b) refl

pub take_block-taken :
    (i size a b z : ℕ) (h : Heaps)
    → b + z < 2 ^ 32
    → a + 0x20 < z
    → (h.memory b).previous_block ≡ null
    → (h.memory b).next_block ≡ null
    → take_block i size a
        (record { block_to_allocate = b; block_size = z; aligned_offset = 0x10 })
        h
      ≡ (b + 0x20, taken i size a b z h)
unfolding take_block taken
take_block-taken i size a b z h bound lt p n =
    let m = cut h.memory b (a + 0x20) z in
    let free = b + (a + 0x20) in
    let first = ap (λ v. v.previous_block) (cut-first h.memory b (a + 0x20) z (omega arith)) ∙ p in
    let last = ap (λ v. v.next_block) (cut-rest h.memory b (a + 0x20) z) ∙ n in
    let ret : add_u32 (add_u32 b 0x10) 0x10 ≡ b + 0x20 = omega (arith, bound, lt) in
    let more : (b + 0x20 == null) ≡ false = ground arith in
    rw
      (
        split_block-cut h.memory a b z bound lt,
        unlink_block-only i b free (set_memory h m) first last,
        ret,
        more,
      )
      refl
