-- ===== src/Heaps/Free.antt =====
-- `FreeOnHeap` and `MergeNextBlockIfUnused` of kernel/source/memory/heaps.c.
use star_struck.Base.{
  ℕ, zero, suc, ℤ, pos, Bool, ltb, leb, ◌==◌, ◌&&◌, ◌||◌, not, if◌then◌else◌, Run, ok, hang, ◌>>=◌,
  add_u32, sub_u32,
}
use star_struck.Heaps.State.{
  ipc_einval, null, heap_block_init, heap_block_in_use, heap_block_aligned, HeapBlock, Heaps,
  set_info, set_memory, set_next, set_previous, set_size, set_block_state,
}
use star_struck.Heaps.Create.{no_heap, index}
use star_struck.Heaps.Mallocate.{walk_fuel, link_back}

unfoldable pub merge_next_block_if_unused : ℕ → (ℕ → HeapBlock) → ℕ → HeapBlock
merge_next_block_if_unused parent m =
    let block_to_merge = (m parent).next_block in
    let block_size = (m parent).size in
    if (parent == null) || (block_to_merge == null)
    then m
    else if not (block_to_merge == add_u32 parent block_size)
    then m
    else (let m1 = set_next m parent (m block_to_merge).next_block in
        let m2 = link_back m1 parent in
        set_size m2 parent (add_u32 block_size (m2 block_to_merge).size))

-- The loop for the last free block before the one to free; `null` if there is no free block.
unfoldable pub find_before : ℕ → (ℕ → HeapBlock) → ℕ → ℕ → Run ℕ
find_before zero m block current = hang
find_before (suc fuel) m block current =
    let next = (m current).next_block in
    let rest = find_before fuel m block next in
    if current == null
    then ok null
    else if (next == null) || ltb block next
    then ok current
    else rest

-- Put the block to the front of the list, or behind `current`.
unfoldable pub insert_block : ℕ → ℕ → ℕ → Heaps → Heaps
insert_block i block current h =
    let first = (h.heaps i).first_block in
    if (current == null) || leb block first
    then (let m = set_previous (set_next h.memory block first) block null in
        set_memory (set_info h i (record (h.heaps i) { first_block = block })) (link_back m block))
    else (let m =
          set_next (set_previous h.memory block current) block (h.memory current).next_block in
        set_memory h (link_back (set_next m current block) block))

abbrev pub merge_around : ℕ → (ℕ → HeapBlock) → ℕ → HeapBlock
merge_around block m =
    let m1 = merge_next_block_if_unused block m in
    merge_next_block_if_unused (m1 block).previous_block m1

abbrev pub merged : ℕ → Heaps → Heaps
merged block h = set_memory h (merge_around block h.memory)

-- Give a block back to the heap at place `i`.
unfoldable pub free_block : ℕ → ℕ → Heaps → Run Heaps
unfolding find_before insert_block merge_next_block_if_unused
free_block i block h =
    let h1 = set_memory h (set_block_state h.memory block heap_block_init) in
    (do
      current ← find_before walk_fuel h1.memory block (h1.heaps i).first_block
      ok (merged block (insert_block i block current h1)))

-- The pointer is outside of the heap's memory.
abbrev pub is_outside : ℕ → ℕ → Heaps → Bool
is_outside i ptr h =
    ltb ptr (add_u32 (h.heaps i).heap 0x10)
    || leb (add_u32 (h.heaps i).heap (h.heaps i).heap_size) ptr

-- The block that a pointer belongs to.
abbrev pub block_of : ℕ → (ℕ → HeapBlock) → ℕ
block_of ptr m =
    let b = sub_u32 ptr 0x10 in
    if (m b).block_state == heap_block_aligned then (m b).next_block else b

abbrev pub is_taken : ℕ → (ℕ → HeapBlock) → Bool
is_taken block m = not (block == null) && ((m block).block_state == heap_block_in_use)

unfoldable pub free_on_heap : ℤ → ℕ → Heaps → Run (ℤ × Heaps)
free_on_heap heapid ptr h =
    if no_heap heapid h || (ptr == null)
    then ok (ipc_einval, h)
    else if is_outside (index heapid) ptr h
    then ok (ipc_einval, h)
    else if not (is_taken (block_of ptr h.memory) h.memory)
    then ok (ipc_einval, h)
    else (do g ← free_block (index heapid) (block_of ptr h.memory) h; ok (pos 0, g))
