-- ===== src/Heaps/Allocated.antt =====
-- The block that `MallocateOnHeap` of kernel/source/memory/heaps.c takes out of the list of free blocks.
use mathlib.Core.Path.{subst}
use star_struck.Base.{
  ℕ, ◌+◌, ◌%◌, ◌^◌, ◌<◌, ◌≤◌, ◌≡◌, ◌≢◌, ◌⊎◌, inl, inr, refl, sym, ==_refl, ◌∙◌, ap, true, false,
  Bool-cases, ltb, leb, ◌==◌, ◌&&◌, arith, add_u32, List, [], ◌∷◌,
}
use star_struck.Heaps.State.{
  HeapBlock, Heaps, null, heap_block_in_use, heap_block_aligned, clear_memory, set_memory, set_next,
}
use star_struck.Heaps.Mallocate.{Search, split_block, unlink_block, mark_in_use, take_block}
use star_struck.Heaps.Marked.{
  zeros, clear_memory_inside, clear_memory_outside, link_back-next, mark_in_use-block,
  mark_in_use-header, mark_in_use_away, split_block-previous, split_block-rest,
}
use star_struck.Heaps.Chain.{Span, Chain}
use star_struck.Heaps.Best.{Aligned, listed}

-- The block `x` taken for `size` bytes, `n` with the rounding and two headers: its pointer; its header, and
-- the one in front of the area, by which `FreeOnHeap` finds it; the area; and the list of free blocks,
-- in which the next block, or the rest of the block, stands in its place.
pub record IsAllocated (h : Heaps) (i size n : ℕ) (x : Span) (r : ℕ × Heaps) : Type 0 where
  pub pointer : r.0 ≡ x.0 + 0x20
  pub used : (r.1.memory x.0).block_state ≡ heap_block_in_use
  pub no_previous : (r.1.memory x.0).previous_block ≡ null
  pub no_next : (r.1.memory x.0).next_block ≡ null
  pub aligned_state : (r.1.memory (x.0 + 0x10)).block_state ≡ heap_block_aligned
  pub aligned_next : (r.1.memory (x.0 + 0x10)).next_block ≡ x.0
  pub cleared : (a : ℕ) → x.0 + 0x20 ≤ a → a + 0x10 ≤ x.0 + 0x20 + size → r.1.memory a ≡ zeros
  pub rest : ℕ
  pub behind : (rest ≡ (h.memory x.0).next_block) ⊎ (rest ≡ add_u32 x.0 n)
  pub unlinked :
      (((h.memory x.0).previous_block ≡ null) × ((r.1.heaps i).first_block ≡ rest))
      ⊎ (((h.memory x.0).previous_block ≢ null)
          × ((r.1.memory (h.memory x.0).previous_block).next_block ≡ rest))
  pub other_heaps : (j : ℕ) → j ≢ i → r.1.heaps j ≡ h.heaps j

-- The block in front of the taken one, or the heap, leads to `free` afterwards.
unlink_block-links :
    (i b free : ℕ) (h : Heaps)
    → (((h.memory b).previous_block ≡ null)
        × (((unlink_block i b free h).heaps i).first_block ≡ free))
      ⊎ (((h.memory b).previous_block ≢ null)
          × (((unlink_block i b free h).memory (h.memory b).previous_block).next_block ≡ free))
unfolding unlink_block
unlink_block-links i b free h =
    let p = (h.memory b).previous_block in
    elim (Bool-cases (p == null)) [
      | inl first ↦ inl (ground (arith, first), rw (first, ==_refl i) refl)
      | inr behind ↦ inr (
        (ground (arith, behind)),
        rw behind (link_back-next (set_next h.memory p free) p p ∙ rw (==_refl p) refl),
      )
    ]

unlink_block-other :
    (i b free j : ℕ) (h : Heaps) → j ≢ i → (unlink_block i b free h).heaps j ≡ h.heaps j
unfolding unlink_block
unlink_block-other i b free j h ne =
    let other : (i == j) ≡ false = ground arith in
    elim (Bool-cases ((h.memory b).previous_block == null)) [
      | inl first ↦ rw (first, other) refl
      | inr behind ↦ rw behind refl
    ]

-- `take_block` on a block that is behind the one that its header names.
take_record-IsAllocated :
    (h : Heaps) (i size a z : ℕ) (x : Span)
    → (h.memory x.0).previous_block < x.0
    → x.0 + (a + 0x20) ≤ 2 ^ 32
    → 0x20 ≤ a
    → IsAllocated h i size (a + 0x20) x (
        take_block i size a
          (record { block_to_allocate = x.0; block_size = z; aligned_offset = 0x10 })
          h)
unfolding take_block
take_record-IsAllocated h i size a z x low fits large =
    let b = x.0 in
    let s : Search = record { block_to_allocate = b; block_size = z; aligned_offset = 0x10 } in
    let split = split_block h.memory a s in
    let h0 = set_memory h split.1 in
    let h1 = unlink_block i b split.0 h0 in
    let m = mark_in_use b 0x10 h1.memory in
    let p = (h.memory b).previous_block in
    let some : 0 < b = omega (arith, low) in
    let small : b + 0x10 < 2 ^ 32 = omega (arith, fits, large) in
    let ret : add_u32 (add_u32 b 0x10) 0x10 ≡ b + 0x20 = omega (arith, fits, large) in
    let place : (b + 0x20 == null) ≡ false = ground arith in
    let out : (c : ℕ) → c < b + 0x20 → (leb (b + 0x20) c && ltb c (b + 0x20 + size)) ≡ false =
      λ c lt. ground arith in
    let kept : (split.1 b).previous_block ≡ p =
      split_block-previous h.memory a s b refl refl some fits in
    let behind = split_block-rest h.memory a s b refl refl some fits in
    let after : (c : ℕ)
        → ((take_block i size a s h).1.memory c) ≡ clear_memory (b + 0x20) size m c =
      λ c. rw (ret, place) refl in
    let before : (c : ℕ) → c < b + 0x20 → ((take_block i size a s h).1.memory c) ≡ m c =
      λ c lt. after c ∙ clear_memory_outside (b + 0x20) size c m (out c lt) in
    let at_block = before b (omega arith) ∙ mark_in_use-block b h1.memory small in
    let at_header = before (b + 0x10) (omega arith) ∙ mark_in_use-header b h1.memory small in
    let at_previous : ((take_block i size a s h).1.memory p) ≡ h1.memory p =
      before p (omega (arith, low))
      ∙ mark_in_use_away b p h1.memory small (omega (arith, low)) (omega (arith, low)) in
    record {
      pointer = ret;
      used = ap (λ v. v.block_state) at_block;
      no_previous = ap (λ v. v.previous_block) at_block;
      no_next = ap (λ v. v.next_block) at_block;
      aligned_state = ap (λ v. v.block_state) at_header;
      aligned_next = ap (λ v. v.next_block) at_header;
      cleared = λ c lo hi. after c ∙ clear_memory_inside (b + 0x20) size c m lo hi;
      rest = split.0;
      behind = behind;
      unlinked = elim (unlink_block-links i b split.0 h0) [
        | inl first ↦ inl (sym kept ∙ first.0, first.1)
        | inr next ↦ inr (
          λ e. next.0 (kept ∙ e),
          ap (λ v. v.next_block) at_previous
              ∙ ap (λ q. (h1.memory q).next_block) (sym kept)
              ∙ next.1,
        )
      ];
      other_heaps = λ j ne. unlink_block-other i b split.0 j h0 ne;
    }

pub take_block-IsAllocated :
    (h : Heaps) (i size a : ℕ) (s : Search) (x : Span)
    → s.block_to_allocate ≡ x.0
    → s.aligned_offset ≡ 0x10
    → (h.memory x.0).previous_block < x.0
    → x.0 + (a + 0x20) ≤ 2 ^ 32
    → 0x20 ≤ a
    → IsAllocated h i size (a + 0x20) x (take_block i size a s h)
take_block-IsAllocated h i size a s x at offset low fits large =
    subst (IsAllocated h i size (a + 0x20) x)
      (λ k.
        take_block i size a
          (record {
            block_to_allocate = (sym at) k;
            block_size = s.block_size;
            aligned_offset = (sym offset) k;
          })
          h)
      (take_record-IsAllocated h i size a s.block_size x low fits large)

-- A block of the list.
pub listed-IsFree :
    (m : ℕ → HeapBlock) (p t : ℕ) (x : Span) (xs : List Span)
    → Chain m p t xs
    → Aligned xs
    → listed x xs ≡ true
    → ((m x.0).previous_block < x.0) × (x.0 + x.1 < 2 ^ 32) × (x.0 % 0x20 ≡ 0)
listed-IsFree m p t x [] h al l = absurd (ground arith)
listed-IsFree m p t x (y ∷ ys) h al l = elim (Bool-cases ((x.0 == y.0) && (x.1 == y.1))) [
  | inl here ↦
      let e : x.0 ≡ y.0 = ground (arith, here) in
      let f : x.1 ≡ y.1 = ground (arith, here) in
      (rw e (omega (arith, h.1.0, h.1.4)), rw (e, f) h.1.1, rw e al.0)
  | inr other ↦ listed-IsFree m y.0 (m y.0).next_block x ys h.2 al.1 (ground (arith, other, l))
]
