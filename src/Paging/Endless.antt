-- ===== src/Paging/Endless.antt =====
-- A size for which the loop of `MapMemory` in kernel/source/memory/memory.c does not end.
use star_struck.Base.{ℕ, zero, suc, ◌-◌, ◌%◌, ◌^◌, ◌<◌, ◌≡◌, refl, true, false, ◌==◌, hang, arith}
use star_struck.Paging.State.{MemorySection, Mmu}
use star_struck.Paging.Map.{map_memory_as_section, is_for_section, map_loop}

-- The size is one byte short of a number of megabytes, and the addresses are aligned.
pub record IsShort (m : MemorySection) : Type 0 where
  pub from : m.virtual_address % 2 ^ 20 ≡ 0
  pub to : m.physical_address % 2 ^ 20 ≡ 0
  pub short : m.size % 2 ^ 20 ≡ 2 ^ 20 - 1
  pub word : m.size < 2 ^ 32

map_memory_as_section-IsShort :
    (m : MemorySection) (s : Mmu) → IsShort m → IsShort (map_memory_as_section m s).0
unfolding map_memory_as_section
map_memory_as_section-IsShort m s h = record {
  from = omega (arith, h.from);
  to = omega (arith, h.to);
  short = omega (arith, h.short, h.word);
  word = omega arith;
}

-- The loop maps sections for ever where a section with aligned addresses has a size that is one byte
-- short of a number of megabytes: the size wraps around.
pub map_loop-hang : (fuel : ℕ) (m : MemorySection) (s : Mmu) → IsShort m → map_loop fuel m s ≡ hang
unfolding map_loop
map_loop-hang zero m s h = refl
map_loop-hang (suc fuel) m s h =
    let some : (m.size == 0) ≡ false = ground arith in
    let section : is_for_section m ≡ true = ground arith in
    let next = map_memory_as_section m s in
    rw (some, section) (map_loop-hang fuel next.0 next.1 (map_memory_as_section-IsShort m s h))
