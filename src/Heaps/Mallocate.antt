-- ===== src/Heaps/Mallocate.antt =====
-- `MallocateOnHeap` and `AllocateOnHeap` of kernel/source/memory/heaps.c.
use star_struck.Base.{
  ℕ, zero, suc, ◌^◌, ℤ, pos, negsuc, Bool, true, update, ltb, leb, ◌==◌, ◌&&◌, ◌||◌, not,
  if◌then◌else◌, Run, ok, hang, ◌>>=◌, add_u32, sub_u32,
}
use star_struck.Heaps.State.{
  max_heap, aligned_block_header_size, null, heap_block_init, heap_block_in_use, heap_block_aligned,
  HeapBlock, Heaps, set_info, set_memory, set_next, set_previous, set_size, clear_memory, offset_of,
  aligned_size_of,
}
use star_struck.Heaps.Create.{index}

-- The blocks of a memory of 2^32 bytes.
abbrev pub walk_fuel : ℕ
walk_fuel = 2 ^ 28

-- The loop's variables `blockToAllocate`, `blockSize` and `alignedOffset`.
pub record Search : Type 0 where
  pub block_to_allocate : ℕ
  pub block_size : ℕ
  pub aligned_offset : ℕ

-- One round at a block.
unfoldable pub look_at : (ℕ → HeapBlock) → ℕ → ℕ → ℕ → Search → Search
look_at m aligned_size alignment current s =
    let offset = offset_of alignment current in
    record {
      block_to_allocate =
          if leb (add_u32 aligned_size offset) (m current).size
            && ((s.block_to_allocate == null) || ltb (m current).size (m s.block_to_allocate).size)
          then current
          else s.block_to_allocate;
      block_size = (m current).size;
      aligned_offset = offset;
    }

-- The test that ends the loop at a block of the size that is looked for.
abbrev pub is_exact : (ℕ → HeapBlock) → ℕ → Search → Bool
is_exact m aligned_size s =
    not (s.block_to_allocate == null)
    && ((m s.block_to_allocate).size == add_u32 aligned_size s.aligned_offset)

unfoldable pub find_block : ℕ → (ℕ → HeapBlock) → ℕ → ℕ → ℕ → Search → Run Search
find_block zero m aligned_size alignment current s = hang
find_block (suc fuel) m aligned_size alignment current s =
    let s1 = look_at m aligned_size alignment current s in
    let rest = find_block fuel m aligned_size alignment (m current).next_block s1 in
    if current == null then ok s else if is_exact m aligned_size s1 then ok s1 else rest

-- The rest of the block, made a block of its own if it is big enough, or the next free block.
unfoldable pub split_block : (ℕ → HeapBlock) → ℕ → Search → ℕ × (ℕ → HeapBlock)
split_block m aligned_size s =
    let b = s.block_to_allocate in
    let n = add_u32 (add_u32 aligned_size s.aligned_offset) aligned_block_header_size in
    if ltb n s.block_size
    then (let m1 = set_size m b n in
        (
          add_u32 b n,
          update m1 (add_u32 b n) (record {
            block_state = heap_block_init;
            size = sub_u32 s.block_size n;
            previous_block = (m1 b).previous_block;
            next_block = (m1 b).next_block;
          }),
        ))
    else ((m b).next_block, m)

-- `if(block->NextBlock != NULL) block->NextBlock->PreviousBlock = block;`
abbrev pub link_back : (ℕ → HeapBlock) → ℕ → ℕ → HeapBlock
link_back m b = if (m b).next_block == null then m else set_previous m (m b).next_block b

-- Take the block out of the list, with `freeBlock` in its place.
unfoldable pub unlink_block : ℕ → ℕ → ℕ → Heaps → Heaps
unlink_block i b free h =
    let p = (h.memory b).previous_block in
    if p == null
    then set_memory (set_info h i (record (h.heaps i) { first_block = free }))
        (link_back h.memory free)
    else set_memory h (link_back (set_next h.memory p free) p)

-- Mark the block, and write a header in front of an aligned area that does not begin behind the
-- block's own header.
unfoldable pub mark_in_use : ℕ → ℕ → (ℕ → HeapBlock) → ℕ → HeapBlock
mark_in_use b offset m =
    let m1 = update m b (record {
      block_state = heap_block_in_use;
      size = (m b).size;
      previous_block = null;
      next_block = null;
    }) in
    let a = add_u32 b offset in
    if offset == 0
    then m1
    else update m1 a (record (m1 a) { block_state = heap_block_aligned; next_block = b })

-- What is done with the block that the search found.
unfoldable pub take_block : ℕ → ℕ → ℕ → Search → Heaps → ℕ × Heaps
take_block i size aligned_size s h =
    let b = s.block_to_allocate in
    let split = split_block h.memory aligned_size s in
    let h1 = unlink_block i b split.0 (set_memory h split.1) in
    let m2 = mark_in_use b s.aligned_offset h1.memory in
    let ret = add_u32 (add_u32 b s.aligned_offset) 0x10 in
    (ret, set_memory h1 (if ret == null then m2 else clear_memory ret size m2))

-- `heapid < 0 || heapid > MAX_HEAP || !heaps[heapid].Heap || ..`; the place behind the table is
-- read for `MAX_HEAP`.
abbrev pub is_refused : ℤ → ℕ → ℕ → Heaps → Bool
is_refused (negsuc _) size alignment h = true
is_refused (pos i) size alignment h =
    ltb max_heap i
    || ((h.heaps i).heap == null)
    || (size == 0)
    || ltb (h.heaps i).heap_size size
    || ltb alignment 0x20

unfoldable pub mallocate_on_heap : ℤ → ℕ → ℕ → Heaps → Run (ℕ × Heaps)
mallocate_on_heap heapid size alignment h =
    if is_refused heapid size alignment h then ok (null, h) else (do
      s ←
          find_block walk_fuel h.memory (aligned_size_of size) alignment
            (h.heaps (index heapid)).first_block
            (record { block_to_allocate = null; block_size = 0; aligned_offset = 0 })
      ok (
          if s.block_to_allocate == null
          then (null, h)
          else take_block (index heapid) size (aligned_size_of size) s h))

unfoldable pub allocate_on_heap : ℤ → ℕ → Heaps → Run (ℕ × Heaps)
allocate_on_heap heapid size h = mallocate_on_heap heapid size 0x20 h
