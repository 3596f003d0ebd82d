-- ===== src/Paging/Setup.antt =====
-- The start of memory protection in kernel/source/memory/memory.c. What the linker script gives is a
-- parameter.
use star_struck.Base.{
  ℕ, zero, suc, ◌+◌, ◌*◌, ◌^◌, ltb, ◌==◌, ◌||◌, if◌then◌else◌, ℤ, lt_int, eq_int, none, some, List,
  [], ◌∷◌, Run, ok, ◌>>=◌, add_u32, sub_u32, bit_or, update,
}
use star_struck.Threads.State.{max_processes}
use star_struck.Threads.Syscalls.{success}
use star_struck.Paging.State.{
  MemorySection, flush_memory, invalidate_tlb, invalidate_instructions, invalidate_all,
  set_control_register, set_domain_access_control_register, set_translation_table_base_register,
  clear_fault_registers, Mmu, page_domain, section_page, ap_value, without_low, set_word,
  clear_words,
}
use star_struck.Paging.Cache.{disabled}
use star_struck.Paging.Map.{
  operate_all, KernelMemoryType, kmalloc_memory_section, map_memory, ipc_enomem,
}

abbrev pub ap_nouser : ℕ
ap_nouser = 1

abbrev pub ap_rouser : ℕ
ap_rouser = 2

abbrev pub ap_rwuser : ℕ
ap_rwuser = 3

pub record Linker : Type 0 where
  pub crypto_addr : ℕ
  pub crypto_size : ℕ
  pub thread_stacks_area_start : ℕ
  pub thread_stacks_area_size : ℕ
  pub ipc_heap_start : ℕ
  pub ipc_heap_size : ℕ
  pub iobuf_heap_area_start : ℕ
  pub iobuf_heap_area_size : ℕ
  pub kmalloc_heap_start : ℕ
  pub kmalloc_heap_size : ℕ
  pub headers_addr : ℕ
  pub headers_size : ℕ

-- A section at the address where it is mapped.
abbrev pub section : ℕ → ℕ → ℕ → ℕ → ℕ → ℕ → MemorySection
section physical virtual size domain access cached = record {
  physical_address = physical;
  virtual_address = virtual;
  size = size;
  domain = domain;
  access_rights = access;
  is_cached = cached;
}

abbrev pub kernel_memory_maps : Linker → List MemorySection
kernel_memory_maps l =
    section 0xFFF00000 0xFFF00000 0x00100000 0xF ap_nouser 1
    ∷ section l.crypto_addr l.crypto_addr l.crypto_size 0xF ap_nouser 1
    ∷ section l.thread_stacks_area_start l.thread_stacks_area_start l.thread_stacks_area_size 0xF
        ap_nouser 1
    ∷ section 0x0D800000 0x0D800000 0x000D0000 0xF ap_rouser 0
    ∷ section 0x00000000 0x00000000 0x04000000 0x8 ap_rwuser 1
    ∷ section 0x10000000 0x10000000 0x03600000 0x8 ap_rwuser 1
    ∷ section 0x13870000 0x13870000 0x00030000 0xF ap_rwuser 0
    ∷ section l.ipc_heap_start l.ipc_heap_start l.ipc_heap_size 0xF ap_rwuser 1
    ∷ section l.iobuf_heap_area_start l.iobuf_heap_area_start l.iobuf_heap_area_size 0xF ap_rwuser 1
    ∷ section l.kmalloc_heap_start l.kmalloc_heap_start l.kmalloc_heap_size 0xF ap_rouser 0
    ∷ section l.headers_addr l.headers_addr l.headers_size 0xF ap_rwuser 1
    ∷ section 0x13F00000 0x13F00000 0x00100000 0xF ap_rwuser 1
    ∷ []

-- The sections of the hardware registers, each with its process.
abbrev pub hw_registers_memory_maps : List (ℕ × MemorySection)
hw_registers_memory_maps =
    (0x00, section 0x0D000000 0x0D000000 0x000D0000 0xF ap_nouser 0)
    ∷ (0x02, section 0x0D010000 0x0D010000 0x00010000 0xF ap_rwuser 0)
    ∷ (0x03, section 0x0D806000 0x0D006000 0x00001000 0xF ap_rwuser 0)
    ∷ (0x06, section 0x0D040000 0x0D040000 0x00030000 0xF ap_rwuser 0)
    ∷ (0x07, section 0x0D070000 0x0D070000 0x00010000 0xF ap_rwuser 0)
    ∷ (0x0B, section 0x0D080000 0x0D080000 0x00010000 0xF ap_rwuser 0)
    ∷ []

-- What a gap in a table of hardware registers is filled with.
abbrev pub gap_entry : ℕ → ℕ
gap_entry i =
    add_u32 (i * 0x1000)
      (bit_or (bit_or (bit_or 0x0D000000 section_page) (page_domain 0xA)) (ap_value ap_nouser))

-- The rounds from entry `i` on, `n` of them.
unfoldable pub fill_gaps : ℕ → ℕ → ℕ → Mmu → Mmu
fill_gaps zero i address s = s
fill_gaps (suc n) i address s =
    fill_gaps n (i + 1) (add_u32 address 4)
      (if s.words address == 0 then set_word address (gap_entry i) s else s)

-- The first level entry of the hardware registers.
abbrev pub hardware_page : Mmu → ℕ
hardware_page s = add_u32 s.table (4 * 0xD0)

abbrev pub set_hardware_access : ℕ → ℕ → Mmu → Mmu
set_hardware_access pid page s = record s {
  hardware_registers_access = update s.hardware_registers_access pid page;
}

unfoldable pub map_hardware_sections : List (ℕ × MemorySection) → Mmu → Run (ℤ × Mmu)
unfolding fill_gaps
map_hardware_sections [] s = ok (success, s)
map_hardware_sections ((pid, m) ∷ ms) s = do
  r ← map_memory (some m) s
  let page = r.1.words (hardware_page r.1)
  let filled = fill_gaps 0x100 0 (without_low 10 page) (set_hardware_access pid page r.1)
  let rest = map_hardware_sections ms (set_word (hardware_page filled) 0 filled)
  if eq_int r.0 success then rest else ok (r.0, r.1)

-- The processes from `pid` on, `n` of them, that have no registers of their own get those of 0.
unfoldable pub set_defaults : ℕ → ℕ → Mmu → Mmu
set_defaults zero pid s = s
set_defaults (suc n) pid s = set_defaults n (pid + 1) (
    if s.hardware_registers_access pid == 0
    then set_hardware_access pid (s.hardware_registers_access 0) s
    else s)

unfoldable pub map_hardware_registers : Mmu → Run (ℤ × Mmu)
unfolding map_hardware_sections set_defaults
map_hardware_registers s = do
  r ← map_hardware_sections hw_registers_memory_maps s
  let six = r.1.hardware_registers_access 6
  let s1 = set_hardware_access 5 six (set_hardware_access 4 six r.1)
  let s2 = set_defaults max_processes 0 s1
  ok (r.0, set_word (hardware_page s2) (s2.hardware_registers_access 0) s2)

unfoldable pub map_sections : List MemorySection → Mmu → Run (ℤ × Mmu)
map_sections [] s = ok (success, s)
map_sections (m ∷ ms) s = do
  r ← map_memory (some m) s
  let rest = map_sections ms r.1
  if lt_int r.0 success then ok r else rest

-- `DOMAIN_VALUE(domain, DOMAIN_CLIENT)`
abbrev pub domain_client : ℕ → ℕ
domain_client domain = 2 ^ (domain * 2)

-- The domains of a process at the start.
unfoldable pub initial_domains : ℕ → ℕ
initial_domains pid =
    let usual = bit_or (domain_client 8) (domain_client 15) in
    if pid == 0
    then 0x55555555
    else if pid == 15
    then domain_client 8
    else if pid == 19
    then bit_or usual (domain_client 9)
    else if (pid == 1) || (pid == 2) || (pid == 3) || (pid == 7) || (pid == 14)
    then bit_or usual (domain_client pid)
    else usual

-- The end of `InitializeMemory`, where all sections are mapped.
unfoldable pub enable_memory : ℕ → Mmu → Mmu
unfolding initial_domains
enable_memory cr s =
    operate_all
      (clear_fault_registers
        ∷ set_translation_table_base_register s.table
        ∷ set_domain_access_control_register 0x55555555
        ∷ flush_memory
        ∷ invalidate_tlb
        ∷ set_control_register (bit_or cr 0x1005)
        ∷ [])
      (record s {
        domain_access_control = λ pid.
            if ltb pid max_processes then initial_domains pid else s.domain_access_control pid;
      })

-- `cr` is the value of the control register at the start, and `now` at the end.
unfoldable pub initialize_memory : Linker → ℕ → ℕ → Mmu → Run (ℤ × Mmu)
unfolding clear_words kmalloc_memory_section map_sections map_hardware_registers enable_memory
initialize_memory linker cr now s =
    let stopped =
      operate_all
        (set_control_register (disabled cr)
          ∷ invalidate_instructions
          ∷ invalidate_all
          ∷ invalidate_tlb
          ∷ [])
        s in
    let empty = clear_words s.heap_current (sub_u32 s.heap_end s.heap_current) stopped in
    let (table, s1) = kmalloc_memory_section KernelMemoryType.page_table empty in
    elim (table) [
      | none ↦ ok (ipc_enomem, record s1 { table = 0 })
      | some address ↦ do
        r ← map_sections (kernel_memory_maps linker) (record s1 { table = address })
        let mapped = map_hardware_registers r.1
        let go =
            mapped
            >>= (λ h. if eq_int h.0 success then ok (success, enable_memory now h.1) else ok h)
        if lt_int r.0 success then ok r else go
    ]
