-- ===== src/Heaps/Search.antt =====
-- The loop of `MallocateOnHeap` in kernel/source/memory/heaps.c on a list of free blocks.
use star_struck.Base.{ℕ, ◌+◌, ◌≡◌, refl, false, Option, none, some, ◌==◌, if◌then◌else◌, ok, pos}
use star_struck.Heaps.State.{Heaps, null, aligned_size_of}
use star_struck.Heaps.Mallocate.{
  Search, find_block, is_refused, take_block, walk_fuel, mallocate_on_heap, allocate_on_heap,
}
use star_struck.Heaps.Chain.{Span, Chain}
use star_struck.Heaps.Allocated.{IsAllocated}

unfoldable pub start : Search
start = record { block_to_allocate = null; block_size = 0; aligned_offset = 0 }

-- Behind the guards and the loop.
pub allocate-take :
    (h : Heaps) (i size : ℕ) (s : Search)
    → is_refused (pos i) size 0x20 h ≡ false
    → find_block walk_fuel h.memory (aligned_size_of size) 0x20 (h.heaps i).first_block start ≡ ok s
    → allocate_on_heap (pos i) size h
      ≡ ok (
          if s.block_to_allocate == null
          then (null, h)
          else take_block i size (aligned_size_of size) s h)
unfolding allocate_on_heap mallocate_on_heap start
allocate-take h i size s valid e = rw (valid, e) refl

-- NULL with nothing changed, or the block is taken.
abbrev pub Outcome : Heaps → ℕ → ℕ → Option Span → Type 0
Outcome h i size none = allocate_on_heap (pos i) size h ≡ ok (null, h)
Outcome h i size (some x) =
    (r : ℕ × Heaps) × (allocate_on_heap (pos i) size h ≡ ok r)
    × IsAllocated h i size (aligned_size_of size + 0x20) x r
