-- ===== src/Heaps/Tests.antt =====
-- Runs of the heap's calls, and the theorems at them.
use star_struck.Base.{
  ℕ, ◌≡◌, ◌≢◌, refl, List, [], ◌∷◌, pos, Option, ◌==◌, if◌then◌else◌, Run, ok, fault, hang, arith,
}
use star_struck.Heaps.State.{
  HeapBlock, Heaps, heap_block_init, heap_block_in_use, heap_block_aligned, offset_of, clear_memory,
}
use star_struck.Heaps.Create.{create_heap, created_heap}
use star_struck.Heaps.Mallocate.{
  allocate_on_heap, mallocate_on_heap, take_block, find_block, look_at, split_block, unlink_block,
  mark_in_use,
}
use star_struck.Heaps.Free.{free_on_heap}
use star_struck.Heaps.Chain.{Span, Chain}
use star_struck.Heaps.Links.{Freed}
use star_struck.Heaps.Freed.{free_on_heap-release}
use star_struck.Heaps.RoundTrip.{allocate_on_heap-free_on_heap}
use star_struck.Heaps.Created.{Created, create_heap-Created}

abbrev no_block : HeapBlock
no_block = record { block_state = 0; size = 0; previous_block = 0; next_block = 0 }

abbrev empty : Heaps
empty = record {
  heaps = λ _. record { heap = 0; process_id = 0; heap_size = 0; first_block = 0 };
  memory = λ _. no_block;
  current_process = 7;
}

create_heap-Created_example :
    (o : Option ℕ) × Created 0x1000 0x200 empty
      (create_heap (λ _ _ _ _ _. pos 0) 0x1000 0x200 empty)
      o
create_heap-Created_example =
    create_heap-Created (λ _ _ _ _ _. pos 0) 0x1000 0x200 empty (omega arith) refl (omega arith)
      (omega arith) refl

-- A heap with a block in use between two free ones.
abbrev fragments : ℕ → HeapBlock
fragments a =
    if a == 0x1000
    then record {
      block_state = heap_block_init;
      size = 0x100;
      previous_block = 0;
      next_block = 0x1140;
    }
    else if a == 0x1100
    then record { block_state = heap_block_in_use; size = 0x40; previous_block = 0; next_block = 0 }
    else if a == 0x1110
    then record {
      block_state = heap_block_aligned;
      size = 0;
      previous_block = 0;
      next_block = 0x1100;
    }
    else if a == 0x1140
    then record {
      block_state = heap_block_init;
      size = 0xB0;
      previous_block = 0x1000;
      next_block = 0;
    }
    else no_block

abbrev fragmented : Heaps
fragmented = record {
  heaps = λ _. record { heap = 0x1000; process_id = 7; heap_size = 0x200; first_block = 0x1000 };
  memory = fragments;
  current_process = 7;
}

abbrev free_spans : List Span
free_spans = (0x1000, 0x100) ∷ (0x1140, 0xB0) ∷ []

fragmented-Chain : Chain fragments 0 0x1000 free_spans
fragmented-Chain = (
  refl,
  (omega arith, omega arith, refl, refl, refl),
  (refl, (omega arith, omega arith, refl, refl, refl), refl),
)

free_on_heap-release_example :
    (g : Heaps) × (free_on_heap (pos 0) 0x1120 fragmented ≡ ok (pos 0, g))
    × Freed fragmented 0 (0x1100, 0x40) free_spans g
free_on_heap-release_example =
    free_on_heap-release fragmented 0 0x1120 (0x1100, 0x40) free_spans refl (omega arith) refl refl
      (record {
        some_place = omega arith;
        bound = omega arith;
        used = refl;
        size = refl;
        short = omega arith;
        chain = fragmented-Chain;
      })

-- The heap that `CreateHeap` makes.
abbrev fresh : Heaps
unfolding created_heap
fresh = created_heap 0 0x1000 0x200 empty

allocate_on_heap-free_on_heap_example :
    (g : Heaps) × (k : Heaps) × (allocate_on_heap (pos 0) 0x21 fresh ≡ ok (0x1020, g))
    × (free_on_heap (pos 0) 0x1020 g ≡ ok (pos 0, k))
    × Chain k.memory 0 (k.heaps 0).first_block ((0x1000, 0x1F0) ∷ [])
    × (k.heaps 0 ≡ fresh.heaps 0)
    × ((j : ℕ) → j ≢ 0 → k.heaps j ≡ fresh.heaps j)
unfolding fresh
allocate_on_heap-free_on_heap_example =
    allocate_on_heap-free_on_heap fresh 0 0x21 (0x1000, 0x1F0) refl refl
      (refl, (omega arith, omega arith, refl, refl, refl), refl) refl (omega arith) (omega arith)
      (omega arith) (omega arith)

-- What a run that allocates leaves: the pointer, the first free block and its header.
abbrev summary : Run (ℕ × Heaps) → ℕ × ℕ × HeapBlock
summary (ok r) = (r.0, (r.1.heaps 0).first_block, r.1.memory (r.1.heaps 0).first_block)
summary fault = (0, 0, no_block)
summary hang = (1, 0, no_block)

fresh_run : summary (allocate_on_heap (pos 0) 0x21 fresh) ≡ (
  0x1020,
  0x1060,
  record { block_state = heap_block_init; size = 0x190; previous_block = 0; next_block = 0 },
)
unfolding allocate_on_heap mallocate_on_heap take_block find_block look_at split_block unlink_block
    mark_in_use offset_of clear_memory fresh
fresh_run = refl

-- The size of the last block that the search saw is used for the block that it found: a block of
-- 0x100 bytes is cut as if it had 0x180.
abbrev two_blocks : ℕ → HeapBlock
two_blocks a =
    if a == 0x1000
    then record {
      block_state = heap_block_init;
      size = 0x100;
      previous_block = 0;
      next_block = 0x2000;
    }
    else if a == 0x2000
    then record {
      block_state = heap_block_init;
      size = 0x180;
      previous_block = 0x1000;
      next_block = 0;
    }
    else no_block

wrong_cut :
    summary (
      allocate_on_heap (pos 0) 0x20 (record fragmented {
        memory = two_blocks;
        heaps =
            λ _. record { heap = 0x1000; process_id = 7; heap_size = 0x1200; first_block = 0x1000 };
      }))
    ≡ (
      0x1020,
      0x1040,
      record {
        block_state = heap_block_init;
        size = 0x140;
        previous_block = 0;
        next_block = 0x2000;
      },
    )
unfolding allocate_on_heap mallocate_on_heap take_block find_block look_at split_block unlink_block
    mark_in_use offset_of clear_memory
wrong_cut = refl
