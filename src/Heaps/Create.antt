-- ===== src/Heaps/Create.antt =====
-- `CreateHeap` and `DestroyHeap` of kernel/source/memory/heaps.c (kernel build, without MIOS).
use star_struck.Base.{
  ℕ, zero, suc, ◌+◌, ◌-◌, ◌%◌, ℤ, pos, negsuc, Option, none, some, lt_int, update, Bool, true, ltb,
  leb, ◌==◌, ◌||◌, not, if◌then◌else◌,
}
use star_struck.Heaps.State.{
  max_heap, aligned_block_header_size, ipc_einval, ipc_emax, ipc_eacces, null, heap_block_init,
  HeapInfo, Heaps, set_info, set_memory,
}

-- `CheckMemoryPointer` of kernel/source/memory/memory.c
abbrev pub CheckPointer : Type 0
CheckPointer = ℕ → ℕ → ℕ → ℕ → ℕ → ℤ

-- The loop for a free place; `n` places are left from `i` on.
unfoldable pub find_free_heap : ℕ → ℕ → (ℕ → HeapInfo) → Option ℕ
find_free_heap zero i heaps = none
find_free_heap (suc n) i heaps =
    let rest = find_free_heap n (i + 1) heaps in if (heaps i).heap == null then some i else rest

-- The one block of a new heap, and the heap's place in the table.
unfoldable pub created_heap : ℕ → ℕ → ℕ → Heaps → Heaps
created_heap i ptr size h =
    set_memory
      (set_info h i (record {
        heap = ptr;
        process_id = h.current_process;
        heap_size = size;
        first_block = ptr;
      }))
      (update h.memory ptr (record {
        block_state = heap_block_init;
        size = size - aligned_block_header_size;
        previous_block = null;
        next_block = null;
      }))

abbrev pub create_at : Option ℕ → ℕ → ℕ → Heaps → ℤ × Heaps
create_at none ptr size h = (ipc_emax, h)
create_at (some i) ptr size h = (pos i, created_heap i ptr size h)

unfoldable pub create_heap : CheckPointer → ℕ → ℕ → Heaps → ℤ × Heaps
create_heap check_memory_pointer ptr size h =
    if (ptr == null) || not ((ptr % 0x20) == 0) || ltb size 0x30
    then (ipc_einval, h)
    else if lt_int (check_memory_pointer ptr size 4 h.current_process 0) (pos 0)
    then (ipc_einval, h)
    else create_at (find_free_heap max_heap 0 h.heaps) ptr size h

-- `heapid < 0 || heapid >= MAX_HEAP || heaps[heapid].Heap == NULL`
abbrev pub no_heap : ℤ → Heaps → Bool
no_heap (negsuc _) h = true
no_heap (pos i) h = leb max_heap i || ((h.heaps i).heap == null)

abbrev pub index : ℤ → ℕ
index (pos i) = i
index (negsuc _) = 0

unfoldable pub destroy_heap : ℤ → Heaps → ℤ × Heaps
destroy_heap heapid h =
    if no_heap heapid h
    then (ipc_einval, h)
    else if not ((h.heaps (index heapid)).process_id == h.current_process)
    then (ipc_eacces, h)
    else (
      pos 0,
      set_info h (index heapid)
          (record { heap = null; process_id = 0; heap_size = 0; first_block = null }),
    )
