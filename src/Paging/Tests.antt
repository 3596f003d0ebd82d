-- ===== src/Paging/Tests.antt =====
-- Runs of the theorems on kernel/source/memory/memory.c.
use star_struck.Base.{◌+◌, ◌-◌, ◌*◌, ◌^◌, ◌≡◌, refl, ◌==◌, if◌then◌else◌, some, [], ok, hang, arith}
use star_struck.Threads.Syscalls.{success}
use star_struck.Paging.State.{MemorySection, Mmu}
use star_struck.Paging.Map.{map_memory, map_loop, section_entry}
use star_struck.Paging.Check.{check_memory_pointer, virtual_to_physical, unmirrored}
use star_struck.Paging.Sections.{IsSections}
use star_struck.Paging.Translated.{map_memory-translated}
use star_struck.Paging.Endless.{IsShort, map_loop-hang}
use star_struck.Paging.Types.{check_memory_pointer-type}

-- MEM2
abbrev mem2 : MemorySection
mem2 = record {
  physical_address = 0x10000000;
  virtual_address = 0x10000000;
  size = 0x03600000;
  domain = 8;
  access_rights = 3;
  is_cached = 1;
}

-- A table with an entry for the first megabyte of MEM2 alone, and domains that are open.
abbrev mmu : Mmu
mmu = record {
  table = 0x13850000;
  words = λ a. if a == 0x13850400 then 0x10000D1E else 0;
  heap_current = 0x13854000;
  heap_end = 0x13870000;
  domain_access_control = λ pid. 0x40010000;
  hardware_registers_access = λ pid. 0;
  operations = [];
}

section_entry-mem2 : section_entry mem2 ≡ 0x10000D1E
unfolding section_entry
section_entry-mem2 = refl

check_memory_pointer-type_example :
    check_memory_pointer mmu 0x10000010 0x20 4 5 5 ≡ check_memory_pointer mmu 0x10000010 0x20 3 5 5
check_memory_pointer-type_example = check_memory_pointer-type mmu 0x10000010 0x20 4 3 5 5

mem2-IsSections : IsSections mem2 0x100 0x100 0x36
mem2-IsSections = omega arith

map_memory-translated_example :
    (g : Mmu) × (map_memory (some mem2) mmu ≡ ok (success, g))
    × (virtual_to_physical g 0x10123456
        ≡ unmirrored (0x100 * 2 ^ 20 + (0x10123456 - 0x100 * 2 ^ 20)))
map_memory-translated_example =
    map_memory-translated mem2 mmu 0x100 0x100 0x36 0x10123456 mem2-IsSections (omega arith)
      (omega arith) (omega arith)

-- A section that is a byte short of a megabyte.
abbrev short_section : MemorySection
short_section = record {
  physical_address = 0x10000000;
  virtual_address = 0x10000000;
  size = 0xFFFFF;
  domain = 8;
  access_rights = 3;
  is_cached = 1;
}

short_section-IsShort : IsShort short_section
short_section-IsShort = omega arith

map_loop-hang_example : map_loop 5000 short_section mmu ≡ hang
map_loop-hang_example = map_loop-hang 5000 short_section mmu short_section-IsShort
