-- ===== src/Heaps/Headers.antt =====
-- The block headers behind `MallocateOnHeap` of kernel/source/memory/heaps.c.
use star_struck.Base.{ℕ, ◌+◌, ◌-◌, ◌^◌, ◌<◌, ◌≤◌, ◌≡◌, ◌∙◌, ap, false, ltb, leb, ◌&&◌, arith}
use star_struck.Heaps.State.{
  HeapBlock, Heaps, null, heap_block_init, heap_block_in_use, heap_block_aligned,
}
use star_struck.Heaps.Mallocate.{mark_in_use}
use star_struck.Heaps.Marked.{
  clear_memory_outside, mark_in_use-block, mark_in_use-header, mark_in_use-other,
}
use star_struck.Heaps.Taken.{cut, cut-rest, cut-first, taken}

-- The headers behind an allocation.
pub record Headers (i size a b z : ℕ) (h g : Heaps) : Type 0 where
  pub used : g.memory b ≡ record {
    block_state = heap_block_in_use;
    size = a + 0x20;
    previous_block = null;
    next_block = null;
  }
  pub aligned_state : (g.memory (b + 0x10)).block_state ≡ heap_block_aligned
  pub aligned_next : (g.memory (b + 0x10)).next_block ≡ b
  pub rest : g.memory (b + (a + 0x20)) ≡ record {
    block_state = heap_block_init;
    size = z - (a + 0x20);
    previous_block = (h.memory b).previous_block;
    next_block = (h.memory b).next_block;
  }

pub taken-Headers :
    (i size a b z : ℕ) (h : Heaps)
    → b + z < 2 ^ 32
    → a + 0x20 < z
    → size ≤ a
    → Headers i size a b z h (taken i size a b z h)
unfolding taken
taken-Headers i size a b z h bound lt le =
    let n = a + 0x20 in
    let c = cut h.memory b n z in
    let m = mark_in_use b 0x10 c in
    let small : b + 0x10 < 2 ^ 32 = omega (arith, bound, lt) in
    let o1 : (leb (b + 0x20) b && ltb b (b + 0x20 + size)) ≡ false = ground arith in
    let o2 : (leb (b + 0x20) (b + 0x10) && ltb (b + 0x10) (b + 0x20 + size)) ≡ false =
      ground arith in
    let o3 : (leb (b + 0x20) (b + n) && ltb (b + n) (b + 0x20 + size)) ≡ false = ground arith in
    let at_header =
      clear_memory_outside (b + 0x20) size (b + 0x10) m o2 ∙ mark_in_use-header b c small in
    record {
      used =
          clear_memory_outside (b + 0x20) size b m o1
          ∙ mark_in_use-block b c small
          ∙ ap
              (λ (v : HeapBlock). record {
                block_state = heap_block_in_use;
                size = v.size;
                previous_block = null;
                next_block = null;
              })
              (cut-first h.memory b n z (omega arith));
      aligned_state = ap (λ v. v.block_state) at_header;
      aligned_next = ap (λ v. v.next_block) at_header;
      rest =
          clear_memory_outside (b + 0x20) size (b + n) m o3
          ∙ mark_in_use-other b (b + n) c small (omega arith)
          ∙ cut-rest h.memory b n z;
    }
