-- ===== src/Paging/Flushed.antt =====
-- The lines that `DCFlushRange` of kernel/source/memory/memory.c flushes.
use star_struck.Base.{
  ℕ, ◌+◌, ◌-◌, ◌*◌, ◌/◌, ◌%◌, ◌^◌, ◌<◌, ◌≤◌, ◌≡◌, refl, ◌∙◌, Bool, true, false, ltb, leb, ◌==◌,
  ◌&&◌, ◌||◌, List, [], ◌∷◌, add_u32, arith,
}
use star_struck.Paging.State.{Operation, flush_entries, flush_all}
use star_struck.Paging.Cache.{align_backward, align_forward, memblock_count, dc_flush_range}

-- Whether an operation writes the cache's copy of an address back.
abbrev pub writes_back : Operation → ℕ → Bool
writes_back (flush_entries first count) a = leb first a && ltb a (first + count * 0x20)
writes_back flush_all a = true
writes_back _ a = false

abbrev pub flushes : List Operation → ℕ → Bool
flushes [] a = false
flushes (o ∷ os) a = writes_back o a || flushes os a

or_false : (b : Bool) → (b || (false || (false || false))) ≡ b
or_false true = refl
or_false false = refl

-- `DCFlushRange` of up to 0x4000 bytes flushes as many lines as the size needs from the line of the
-- first address on.
dc_flush_range-lines :
    (start size a : ℕ)
    → 0 < size
    → size ≤ 0x4000
    → start + size + 0x20 ≤ 2 ^ 32
    → flushes (dc_flush_range start size) a
      ≡ (leb (start / 0x20 * 0x20) a && ltb a (start / 0x20 * 0x20 + (size + 0x1F) / 0x20 * 0x20))
unfolding dc_flush_range
dc_flush_range-lines start size a some_bytes few room =
    let first = align_backward start in
    let end = align_forward (add_u32 first size) in
    let some : (size == 0) ≡ false = ground arith in
    let small : leb size 0x4000 ≡ true = ground arith in
    let count : memblock_count first end * 0x20 ≡ (size + 0x1F) / 0x20 * 0x20 =
      omega (arith, room, some_bytes) in
    rw (some, small, count) (or_false _)

outside : (first behind a : ℕ) → behind ≤ a → (leb first a && ltb a behind) ≡ false
outside first behind a le = ground arith

-- Where a range starts within a line, and its bytes behind the whole lines do not fit into the rest of
-- that line, `DCFlushRange` of up to 0x4000 bytes does not flush the last byte of the range.
dc_flush_range-misses :
    (start size : ℕ)
    → 0 < size
    → size ≤ 0x4000
    → start + size + 0x20 ≤ 2 ^ 32
    → 0x20 < start % 0x20 + ((size - 1) % 0x20 + 1)
    → flushes (dc_flush_range start size) (start + size - 1) ≡ false
dc_flush_range-misses start size some_bytes few room crossing =
    let behind = start / 0x20 * 0x20 + (size + 0x1F) / 0x20 * 0x20 in
    dc_flush_range-lines start size (start + size - 1) some_bytes few room
    ∙ outside (start / 0x20 * 0x20) behind (start + size - 1) (omega (arith, crossing, some_bytes))
