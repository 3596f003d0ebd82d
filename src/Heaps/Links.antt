-- ===== src/Heaps/Links.antt =====
-- The steps of `FreeOnHeap` in kernel/source/memory/heaps.c on a heap with a list of free blocks.
use star_struck.Base.{
  ℕ, ◌+◌, ◌<◌, ◌^◌, ◌≡◌, ◌≢◌, refl, ==_refl, true, false, leb, ◌==◌, ◌||◌, update, List, length,
  arith, ok,
}
use star_struck.Heaps.State.{
  HeapBlock, Heaps, null, heap_block_init, heap_block_in_use, set_block_state, set_memory,
}
use star_struck.Heaps.Mallocate.{walk_fuel}
use star_struck.Heaps.Free.{find_before, insert_block, free_block, merged}
use star_struck.Heaps.Chain.{Span, Chain, Away, Chain-update, Chain-Away}
use star_struck.Heaps.Insert.{IsLoose, front, behind}
use star_struck.Heaps.Release.{release, total}

-- What giving the block `x` back to the heap at place `i` leaves: the list with the block released, of
-- all free bytes and the block's, and all other headers and heaps as they were.
pub record Freed (h : Heaps) (i : ℕ) (x : Span) (xs : List Span) (g : Heaps) : Type 0 where
  pub listed : Chain g.memory 0 (g.heaps i).first_block (release x xs)
  pub bytes : total (release x xs) ≡ x.1 + total xs
  pub away : (a : ℕ) → a ≢ x.0 → Away a xs → g.memory a ≡ h.memory a
  pub same_heap : g.heaps i ≡ record (h.heaps i) { first_block = (g.heaps i).first_block }
  pub other_heaps : (j : ℕ) → j ≢ i → g.heaps j ≡ h.heaps j

pub free_block-insert :
    (i b c : ℕ) (h : Heaps)
    → find_before walk_fuel (set_block_state h.memory b heap_block_init) b (h.heaps i).first_block
      ≡ ok c
    → free_block i b h
      ≡ ok (
          merged b (insert_block i b c (set_memory h (set_block_state h.memory b heap_block_init))))
unfolding free_block
free_block-insert i b c h e = rw e refl

pub insert_block-front :
    (i b c : ℕ) (h : Heaps)
    → ((c == null) || leb b (h.heaps i).first_block) ≡ true
    → insert_block i b c h ≡ record h {
      heaps = update h.heaps i (record (h.heaps i) { first_block = b });
      memory = front h.memory b (h.heaps i).first_block;
    }
unfolding insert_block front
insert_block-front i b c h e = rw e refl

pub insert_block-behind :
    (i b c : ℕ) (h : Heaps)
    → ((c == null) || leb b (h.heaps i).first_block) ≡ false
    → insert_block i b c h ≡ set_memory h (behind h.memory b c)
unfolding insert_block behind
insert_block-behind i b c h e = rw e refl

-- A block in use, in a heap whose free blocks are `xs`.
pub record IsTaken (h : Heaps) (i : ℕ) (x : Span) (xs : List Span) : Type 0 where
  pub some_place : 0 < x.0
  pub bound : x.0 + x.1 < 2 ^ 32
  pub used : (h.memory x.0).block_state ≡ heap_block_in_use
  pub size : (h.memory x.0).size ≡ x.1
  pub short : length xs < walk_fuel
  pub chain : Chain h.memory 0 (h.heaps i).first_block xs

abbrev pub marked : Heaps → ℕ → ℕ → HeapBlock
marked h b = set_block_state h.memory b heap_block_init

pub marked-IsLoose :
    (h : Heaps) (i : ℕ) (x : Span) (xs : List Span) → IsTaken h i x xs → IsLoose (marked h x.0) x
marked-IsLoose h i x xs t = record {
  some_place = t.some_place;
  bound = t.bound;
  free = rw (==_refl x.0) refl;
  size = rw (==_refl x.0) (t.size);
}

pub marked_away : (h : Heaps) (b a : ℕ) → a ≢ b → marked h b a ≡ h.memory a
marked_away h b a ne = ground arith

pub marked-Chain :
    (h : Heaps) (i : ℕ) (x : Span) (xs : List Span)
    → IsTaken h i x xs
    → Chain (marked h x.0) 0 (h.heaps i).first_block xs
marked-Chain h i x xs t =
    Chain-update h.memory x.0 (record (h.memory x.0) { block_state = heap_block_init }) 0
      (h.heaps i).first_block xs
      (Chain-Away h.memory x.0 0 (h.heaps i).first_block xs t.used t.chain) t.chain
