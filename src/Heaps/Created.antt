-- ===== src/Heaps/Created.antt =====
-- `CreateHeap` of kernel/source/memory/heaps.c: the new heap and its one free block.
use star_struck.Base.{
  ℕ, zero, suc, ◌+◌, ◌-◌, ◌%◌, ◌^◌, ◌<◌, ◌≤◌, ◌≡◌, ◌≢◌, ◌⊎◌, inl, inr, refl, ==_refl, sym, ℤ, pos,
  lt_int, Bool, true, false, Bool-cases, Option, none, some, ltb, ◌==◌, if◌then◌else◌, [], ◌∷◌,
  arith,
}
use star_struck.Heaps.State.{HeapInfo, Heaps, null, max_heap, ipc_emax}
use star_struck.Heaps.Create.{
  CheckPointer, find_free_heap, create_at, created_heap, create_heap, no_heap,
}
use star_struck.Heaps.Chain.{Chain}

-- The `n` places from `i` on are taken.
abbrev pub all_used : ℕ → ℕ → (ℕ → HeapInfo) → Bool
all_used zero i heaps = true
all_used (suc n) i heaps =
    let rest = all_used n (i + 1) heaps in if (heaps i).heap == null then false else rest

-- The first free place of `n` from `i` on.
abbrev FirstFree : ℕ → ℕ → (ℕ → HeapInfo) → Option ℕ → Type 0
FirstFree n i heaps none = all_used n i heaps ≡ true
FirstFree n i heaps (some j) =
    (k : ℕ) × (j ≡ i + k) × (k < n) × ((heaps j).heap ≡ null) × (all_used k i heaps ≡ true)

find_free_heap-FirstFree :
    (n i : ℕ) (heaps : ℕ → HeapInfo) → FirstFree n i heaps (find_free_heap n i heaps)
unfolding find_free_heap
find_free_heap-FirstFree zero i heaps = refl
find_free_heap-FirstFree (suc n) i heaps =
    go (Bool-cases ((heaps i).heap == null)) (find_free_heap n (i + 1) heaps)
      (find_free_heap-FirstFree n (i + 1) heaps)
  where
    go :
        (((heaps i).heap == null) ≡ true) ⊎ (((heaps i).heap == null) ≡ false)
        → (o : Option ℕ) → FirstFree n (i + 1) heaps o
        → FirstFree (suc n) i heaps (if (heaps i).heap == null then some i else o)
    go (inl e) o h = rw e (0, omega arith, omega arith, ground (arith, e), refl)
    go (inr e) none h = rw (e, e) h
    go (inr e) (some j) h = rw e (suc h.0, omega (arith, h.1), omega (arith, h.2), h.3, rw e h.4)

-- What a new heap at place `i` looks like.
pub record IsNewHeap (i ptr size : ℕ) (h g : Heaps) : Type 0 where
  pub index : i < max_heap
  pub unused : (h.heaps i).heap ≡ null
  pub earlier : all_used i 0 h.heaps ≡ true
  pub heap : no_heap (pos i) g ≡ false
  pub block : Chain g.memory 0 (g.heaps i).first_block ((ptr, size - 0x10) ∷ [])
  pub info :
      g.heaps i
      ≡ record { heap = ptr; process_id = h.current_process; heap_size = size; first_block = ptr }
  pub other_heaps : (j : ℕ) → j ≢ i → g.heaps j ≡ h.heaps j

created_heap-IsNewHeap :
    (i ptr size : ℕ) (h : Heaps)
    → 0 < ptr
    → ptr + size < 2 ^ 32
    → i < max_heap
    → (h.heaps i).heap ≡ null
    → all_used i 0 h.heaps ≡ true
    → IsNewHeap i ptr size h (created_heap i ptr size h)
unfolding created_heap
created_heap-IsNewHeap i ptr size h place bound lt free used = record {
  index = lt;
  unused = free;
  earlier = used;
  heap = rw (==_refl i) (ground arith);
  block = rw (==_refl i, ==_refl ptr) (refl, (place, omega (arith, bound), refl, refl, refl), refl);
  info = rw (==_refl i) refl;
  other_heaps = λ j ne. ground arith;
}

abbrev pub Created : ℕ → ℕ → Heaps → ℤ × Heaps → Option ℕ → Type 0
Created ptr size h r none = (r ≡ (ipc_emax, h)) × (all_used max_heap 0 h.heaps ≡ true)
Created ptr size h r (some i) = (r ≡ (pos i, r.1)) × IsNewHeap i ptr size h r.1

create_at-Created :
    (ptr size : ℕ) (h : Heaps) (o : Option ℕ)
    → 0 < ptr
    → ptr + size < 2 ^ 32
    → FirstFree max_heap 0 h.heaps o
    → Created ptr size h (create_at o ptr size h) o
create_at-Created ptr size h none place bound free = (refl, free)
create_at-Created ptr size h (some i) place bound free =
    let e : free.0 ≡ i = omega (arith, free.1) in
    (
      refl,
      created_heap-IsNewHeap i ptr size h place bound (omega (arith, free.1, free.2)) free.3
          (rw (sym e) free.4),
    )

-- CreateHeap of a memory of at least 0x30 bytes that begins at a multiple of 32 other than 0, ends below
-- 2^32 and passes the check for the caller's writes takes the first free place of the table for the
-- heap, with one free block behind the header; if there is none, it returns IPC_EMAX and changes nothing.
pub create_heap-Created :
    (check_memory_pointer : CheckPointer) (ptr size : ℕ) (h : Heaps)
    → 0 < ptr
    → ptr % 0x20 ≡ 0
    → 0x30 ≤ size
    → ptr + size < 2 ^ 32
    → lt_int (check_memory_pointer ptr size 4 h.current_process 0) (pos 0) ≡ false
    → (o : Option ℕ) × Created ptr size h (create_heap check_memory_pointer ptr size h) o
unfolding create_heap
create_heap-Created check_memory_pointer ptr size h place al large bound allowed =
    let o = find_free_heap max_heap 0 h.heaps in
    let some_place : (ptr == null) ≡ false = ground arith in
    let big : ltb size 0x30 ≡ false = ground arith in
    (
      o,
      rw (some_place, al, big, allowed)
          (create_at-Created ptr size h o place bound
            (find_free_heap-FirstFree max_heap 0 h.heaps)),
    )
