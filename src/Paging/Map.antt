-- ===== src/Paging/Map.antt =====
-- The translation tables: the functions of kernel/source/memory/memory.c that allocate and fill them.
use star_struck.Base.{
  ℕ, zero, suc, ◌+◌, ◌*◌, ◌%◌, ◌^◌, ltb, leb, ◌==◌, ◌&&◌, ◌||◌, not, Bool, if◌then◌else◌, ℤ, negsuc,
  Option, none, some, List, [], ◌∷◌, Run, ok, hang, ◌>>=◌, add_u32, sub_u32, bit_or, eq_int,
}
use star_struck.Threads.Syscalls.{success, ipc_einval}
use star_struck.Paging.State.{
  MemorySection, Operation, flush_memory, invalidate_tlb, Mmu, operate, page_domain, page_type,
  course_page_entry_value, section_page, course_page, course_section, writeback_cache, apx_value,
  ap_value, without_low, entry_address, set_word, clear_words,
}
use star_struck.Paging.Cache.{dc_flush_range}

abbrev pub ipc_enomem : ℤ
ipc_enomem = negsuc 21

-- The operations of a call, behind those before.
abbrev pub operate_all : List Operation → Mmu → Mmu
operate_all [] s = s
operate_all (o ∷ os) s = operate_all os (operate o s)

pub data KernelMemoryType : Type 0 where
  page_table unknown course_page_table : KernelMemoryType

abbrev pub size_of_type : KernelMemoryType → ℕ
size_of_type KernelMemoryType.page_table = 0x4000
size_of_type KernelMemoryType.unknown = 0x1000
size_of_type KernelMemoryType.course_page_table = 0x400

unfoldable pub kmalloc : ℕ → Mmu → ℕ × Mmu
kmalloc size s = let ptr = sub_u32 s.heap_end size in (ptr, record s { heap_end = ptr })

-- The pointer is `none` for NULL.
unfoldable pub kmalloc_memory_section : KernelMemoryType → Mmu → Option ℕ × Mmu
unfolding clear_words
kmalloc_memory_section type s =
    let ptr = s.heap_current in
    let size = size_of_type type in
    let ptr_end = add_u32 ptr size in
    let moved = record s { heap_current = ptr_end } in
    if ltb s.heap_end ptr_end
    then (none, moved)
    else (some ptr, clear_words ptr (sub_u32 ptr_end ptr) moved)

-- A section behind its first `size` bytes.
abbrev pub advance : ℕ → MemorySection → MemorySection
advance size m = record m {
  physical_address = add_u32 m.physical_address size;
  virtual_address = add_u32 m.virtual_address size;
  size = sub_u32 m.size size;
}

-- The first level entry of a section.
unfoldable pub section_entry : MemorySection → ℕ
section_entry m =
    let base = if m.is_cached == 0 then section_page else bit_or section_page writeback_cache in
    bit_or (bit_or (bit_or base (without_low 20 m.physical_address)) (ap_value m.access_rights))
      (page_domain m.domain)

-- The functions that take a section take one that is not NULL.
unfoldable pub map_memory_as_section : MemorySection → Mmu → MemorySection × Mmu
unfolding section_entry
map_memory_as_section m s =
    let page = entry_address s m.virtual_address in
    (advance 0x100000 m, operate_all (dc_flush_range page 4) (set_word page (section_entry m) s))

-- A first level entry that points to a table of second level entries.
abbrev pub table_entry : ℕ → MemorySection → ℕ
table_entry page m = bit_or (bit_or (without_low 10 page) (page_domain m.domain)) course_page

-- The second level entry of a page.
unfoldable pub page_of : MemorySection → ℕ
page_of m =
    let type = if m.is_cached == 0 then course_section else bit_or course_section writeback_cache in
    let a = m.access_rights in
    bit_or
      (bit_or
        (bit_or (bit_or (bit_or (without_low 12 m.physical_address) type) (apx_value 3 a))
          (apx_value 2 a))
        (apx_value 1 a))
      (apx_value 0 a)

-- The table for the section's address: allocated, or the one that is there.
unfoldable pub find_course_table : MemorySection → ℕ → Mmu → ℤ × ℕ × Mmu
unfolding kmalloc_memory_section
find_course_table m mode s =
    let address = entry_address s m.virtual_address in
    let value = s.words address in
    let renewed = table_entry value m in
    let (new, s1) = kmalloc_memory_section KernelMemoryType.course_page_table s in
    if value == 0
    then elim (new) [
      | none ↦ (ipc_enomem, 0, s1)
      | some page ↦ (success, page, set_word address (table_entry page m) s1)
    ]
    else if (mode == 0) && not (page_type value == course_page)
    then (ipc_einval, 0, s)
    else if mode == 0
    then (success, without_low 10 value, s)
    else (success, without_low 10 renewed, set_word address renewed s)

unfoldable pub map_memory_as_course_page : MemorySection → ℕ → Mmu → ℤ × MemorySection × Mmu
unfolding find_course_table page_of
map_memory_as_course_page m mode s =
    let (code, page, s1) = find_course_table m mode s in
    let address = add_u32 page (4 * course_page_entry_value m.virtual_address) in
    if not (eq_int code success)
    then (code, m, s1)
    else if (mode == 0) && not (s1.words address == 0)
    then (ipc_einval, m, s1)
    else (
      success,
      advance 0x1000 m,
      operate_all (dc_flush_range page 0x1000) (set_word address (page_of m) s1),
    )

-- What the loop of `MapMemory` does with the section that is left.
abbrev pub is_for_section : MemorySection → Bool
is_for_section m =
    (m.virtual_address % 2 ^ 20 == 0) && (m.physical_address % 2 ^ 20 == 0) && leb 0xFFFFF m.size

abbrev pub is_misaligned : MemorySection → Bool
is_misaligned m =
    not (m.virtual_address % 2 ^ 12 == 0)
    || not (m.physical_address % 2 ^ 12 == 0)
    || ltb m.size 0x1000

-- The loop, with a bound on its rounds.
unfoldable pub map_loop : ℕ → MemorySection → Mmu → Run (ℤ × Mmu)
map_loop zero m s = hang
map_loop (suc fuel) m s =
    let section = map_memory_as_section m s in
    let behind_section = map_loop fuel section.0 section.1 in
    let course = map_memory_as_course_page m 0 s in
    let behind_page = map_loop fuel course.1 course.2 in
    if m.size == 0
    then ok (success, s)
    else if is_for_section m
    then behind_section
    else if is_misaligned m
    then ok (ipc_einval, s)
    else if eq_int course.0 success
    then behind_page
    else ok (course.0, course.2)

-- One round for each page of an address space, and one more.
unfoldable pub map_fuel : ℕ
map_fuel = 2 ^ 20 + 1

unfoldable pub map_memory : Option MemorySection → Mmu → Run (ℤ × Mmu)
unfolding map_loop
map_memory none s = ok (ipc_einval, s)
map_memory (some m) s = do
  r ← map_loop map_fuel m s
  ok (r.0, operate_all (flush_memory ∷ invalidate_tlb ∷ []) r.1)
