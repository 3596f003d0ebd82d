-- ===== src/Paging/Check.antt =====
-- The translation of an address and the check of a pointer, in kernel/source/memory/memory.c.
use star_struck.Base.{
  ℕ, zero, suc, ◌+◌, ◌*◌, ◌/◌, ◌%◌, ◌^◌, ltb, ◌==◌, ◌&&◌, ◌||◌, Bool, if◌then◌else◌, ℤ, Option,
  none, some, Run, ok, hang, add_u32, sub_u32, eq_int,
}
use star_struck.Threads.Syscalls.{success, ipc_eacces}
use star_struck.Paging.State.{
  Mmu, page_type, section_page, course_page, course_section, course_entry, entry_address, shl_u32,
  without_low,
}

-- The physical address before the mirror of the SRAM is taken out; 0 for none.
unfoldable pub translated : Mmu → ℕ → ℕ
translated s virtual_address =
    let entry = s.words (entry_address s virtual_address) in
    let page = course_entry s entry virtual_address in
    if page_type entry == section_page
    then virtual_address % 2 ^ 20 + without_low 20 entry
    else if (page_type entry == course_page) && (page % 4 == course_section)
    then virtual_address % 2 ^ 12 + without_low 12 page
    else 0

unfoldable pub unmirrored : ℕ → ℕ
unmirrored physical_address =
    if ltb physical_address 0xFFFE0000
    then physical_address
    else add_u32 physical_address
        (if ltb physical_address 0xFFFF0000 then 0x0D430000 else 0x0D410000)

unfoldable pub virtual_to_physical : Mmu → ℕ → ℕ
unfolding translated unmirrored
virtual_to_physical s virtual_address = unmirrored (translated s virtual_address)

-- The size of the block that an entry is for and the value with its access permissions in the highest
-- bits, or `none` where no page is mapped; `page` is the second level entry.
unfoldable pub block_of : ℕ → ℕ → Option (ℕ × ℕ)
block_of entry page =
    if page_type entry == course_page
    then (if page % 4 == course_section then some (0x1000, shl_u32 page 0x1A) else none)
    else if page_type entry == section_page
    then some (0x100000, shl_u32 entry 0x14)
    else none

abbrev pub permissions : Mmu → ℕ → Option (ℕ × ℕ)
permissions s ptr =
    let entry = s.words (entry_address s ptr) in block_of entry (course_entry s entry ptr)

-- Whether the domain of an entry is open to both processes.
unfoldable pub has_domain_access : Mmu → ℕ → ℕ → ℕ → Bool
has_domain_access s entry pid domain_pid =
    let page_domain = shl_u32 entry 0x17 / 2 ^ 0x1C * 2 in
    let domain_access = s.domain_access_control pid / 2 ^ page_domain % 4 in
    let domain_access2 = s.domain_access_control domain_pid / 2 ^ page_domain % 4 in
    (domain_access == 1) && (domain_access2 == 1)

-- Whether the permissions are enough for an access of the type.
unfoldable pub is_permitted : ℕ → ℕ → Bool
is_permitted type value =
    ((type == 4) && (value / 2 ^ 0x1E == 3)) || ltb (sub_u32 (value / 2 ^ 0x1E) 2) 2

-- The code, and the size of the block; the size is 0 where it is not set.
unfoldable pub check_memory_block : Mmu → ℕ → ℕ → ℕ → ℕ → ℤ × ℕ
check_memory_block s ptr type pid domain_pid =
    let entry = s.words (entry_address s ptr) in
    elim (permissions s ptr) [
      | none ↦ (ipc_eacces, 0)
      | some (size, value) ↦
          if has_domain_access s entry pid domain_pid && is_permitted type value
          then (success, size)
          else (ipc_eacces, size)
    ]

-- `(start + size) & -size`, of a size that is a power of 2
abbrev pub next_block : ℕ → ℕ → ℕ
next_block start size = add_u32 start size / size * size

-- The loop, with a bound on its rounds.
unfoldable pub check_loop : ℕ → Mmu → ℕ → ℕ → ℕ → ℕ → ℕ → Run ℤ
check_loop zero s type pid domain_pid start end = if ltb start end then hang else ok success
check_loop (suc fuel) s type pid domain_pid start end =
    let block = check_memory_block s start type pid domain_pid in
    let rest = check_loop fuel s type pid domain_pid (next_block start block.1) end in
    if ltb start end then (if eq_int block.0 success then rest else ok block.0) else ok success

-- One round for each page of an address space.
unfoldable pub check_fuel : ℕ
check_fuel = 2 ^ 20

unfoldable pub check_memory_pointer : Mmu → ℕ → ℕ → ℕ → ℕ → ℕ → Run ℤ
check_memory_pointer s ptr size type pid domain_pid =
    if pid == 0
    then ok success
    else check_loop check_fuel s type pid domain_pid ptr (add_u32 ptr size)
