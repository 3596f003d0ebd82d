-- ===== src/Heaps/Marked.antt =====
-- What `MallocateOnHeap` of kernel/source/memory/heaps.c does with the block that it takes.
use star_struck.Base.{
  ℕ, ◌+◌, ◌-◌, ◌^◌, ◌<◌, ◌≤◌, ◌≡◌, ◌≢◌, ◌⊎◌, inl, inr, refl, ==_refl, ap, true, false, Bool-cases,
  ltb, leb, ◌==◌, ◌&&◌, update, arith, add_u32, sub_u32,
}
use star_struck.Heaps.State.{
  HeapBlock, null, heap_block_init, heap_block_in_use, heap_block_aligned, clear_memory,
  clear_block, set_size,
}
use star_struck.Heaps.Mallocate.{Search, split_block, link_back, mark_in_use}

pub clear_memory_outside :
    (p size a : ℕ) (m : ℕ → HeapBlock)
    → (leb p a && ltb a (p + size)) ≡ false
    → clear_memory p size m a ≡ m a
unfolding clear_memory
clear_memory_outside p size a m h = rw h refl

pub mark_in_use-block :
    (b : ℕ) (m : ℕ → HeapBlock)
    → b + 0x10 < 2 ^ 32
    → mark_in_use b 0x10 m b ≡ record {
      block_state = heap_block_in_use;
      size = (m b).size;
      previous_block = null;
      next_block = null;
    }
unfolding mark_in_use
mark_in_use-block b m lt =
    let e : add_u32 b 0x10 ≡ b + 0x10 = omega (arith, lt) in
    let n : (b + 0x10 == b) ≡ false = ground arith in rw (e, n, ==_refl b) refl

pub mark_in_use-header :
    (b : ℕ) (m : ℕ → HeapBlock)
    → b + 0x10 < 2 ^ 32
    → mark_in_use b 0x10 m (b + 0x10)
      ≡ record (m (b + 0x10)) { block_state = heap_block_aligned; next_block = b }
unfolding mark_in_use
mark_in_use-header b m lt =
    let e : add_u32 b 0x10 ≡ b + 0x10 = omega (arith, lt) in
    let n : (b == b + 0x10) ≡ false = ground arith in rw (e, ==_refl (b + 0x10), n) refl

pub mark_in_use_away :
    (b a : ℕ) (m : ℕ → HeapBlock)
    → b + 0x10 < 2 ^ 32
    → a ≢ b
    → a ≢ b + 0x10
    → mark_in_use b 0x10 m a ≡ m a
unfolding mark_in_use
mark_in_use_away b a m lt far far2 =
    let e : add_u32 b 0x10 ≡ b + 0x10 = omega (arith, lt) in
    let n : (b == a) ≡ false = ground arith in
    let n2 : (b + 0x10 == a) ≡ false = ground arith in rw (e, n, n2) refl

pub mark_in_use-other :
    (b a : ℕ) (m : ℕ → HeapBlock) → b + 0x10 < 2 ^ 32 → b + 0x10 < a → mark_in_use b 0x10 m a ≡ m a
mark_in_use-other b a m lt far = mark_in_use_away b a m lt (omega (arith, far)) (omega (arith, far))

-- A header of zeros
abbrev pub zeros : HeapBlock
zeros = record { block_state = 0; size = 0; previous_block = 0; next_block = 0 }

clear_block_whole : (n : ℕ) (v : HeapBlock) → 16 ≤ n → clear_block n v ≡ zeros
clear_block_whole n v h =
    let e0 : leb 4 n ≡ true = ground (arith, h) in
    let e1 : leb 4 (n - 4) ≡ true = ground (arith, h) in
    let e2 : leb 4 (n - 8) ≡ true = ground (arith, h) in
    let e3 : leb 4 (n - 12) ≡ true = ground (arith, h) in rw (e0, e1, e2, e3) refl

pub clear_memory_inside :
    (p size a : ℕ) (m : ℕ → HeapBlock)
    → p ≤ a
    → a + 0x10 ≤ p + size
    → clear_memory p size m a ≡ zeros
unfolding clear_memory
clear_memory_inside p size a m low high =
    let inside : (leb p a && ltb a (p + size)) ≡ true = ground (arith, low, high) in
    let n : 16 ≤ p + size - a = omega (arith, low, high) in
    rw inside (clear_block_whole (p + size - a) (m a) n)

pub link_back-next : (m : ℕ → HeapBlock) (b c : ℕ) → (link_back m b c).next_block ≡ (m c).next_block
link_back-next m b c = elim (Bool-cases ((m b).next_block == null)) [
  | inl e ↦ rw e refl
  | inr n ↦ elim (Bool-cases ((m b).next_block == c)) [
    | inl same ↦
        let e : (m b).next_block ≡ c = ground (arith, same) in
        rw (n, same) (ap (λ (q : ℕ). (m q).next_block) e)
    | inr other ↦ rw (n, other) refl
  ]
]

module _ (m : ℕ → HeapBlock) (a : ℕ) (s : Search) (b : ℕ) (at : s.block_to_allocate ≡ b)
    (offset : s.aligned_offset ≡ 0x10) (some_place : 0 < b) (fits : b + (a + 0x20) ≤ 2 ^ 32) where
  -- The two outcomes of the split.
  split_block_cases :
      (split_block m a s ≡ ((m b).next_block, m))
      ⊎ (split_block m a s ≡ (
        add_u32 b (a + 0x20),
        update (set_size m b (a + 0x20)) (add_u32 b (a + 0x20)) (record {
          block_state = heap_block_init;
          size = sub_u32 s.block_size (a + 0x20);
          previous_block = (m b).previous_block;
          next_block = (m b).next_block;
        }),
      ))
  unfolding split_block
  split_block_cases =
      let n : add_u32 (add_u32 a 0x10) 0x10 ≡ a + 0x20 = omega (arith, fits, some_place) in
      elim (Bool-cases (ltb (a + 0x20) s.block_size)) [
        | inl large ↦ inr (rw (offset, at, n, large, ==_refl b) refl)
        | inr small ↦ inl (rw (offset, at, n, small) refl)
      ]

  pub split_block-previous : ((split_block m a s).1 b).previous_block ≡ (m b).previous_block
  split_block-previous =
      let other : (add_u32 b (a + 0x20) == b) ≡ false = ground (arith, fits, some_place) in
      elim split_block_cases [ inl e ↦ rw e refl | inr e ↦ rw (e, other, ==_refl b) refl ]

  pub split_block-rest :
      ((split_block m a s).0 ≡ (m b).next_block) ⊎ ((split_block m a s).0 ≡ add_u32 b (a + 0x20))
  split_block-rest = elim split_block_cases [
    | inl e ↦ inl (ap (λ r. r.0) e)
    | inr e ↦ inr (ap (λ r. r.0) e)
  ]
