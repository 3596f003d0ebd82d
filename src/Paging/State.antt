-- ===== src/Paging/State.antt =====
-- The data of kernel/source/memory/memory.h, and the globals of kernel/source/memory/memory.c (kernel
-- build, without MIOS).
use star_struck.Base.{
  ℕ, ◌+◌, ◌*◌, ◌/◌, ◌%◌, ◌^◌, List, ◌∷◌, ltb, leb, ◌&&◌, if◌then◌else◌, update, add_u32,
}

pub record MemorySection : Type 0 where
  pub physical_address : ℕ
  pub virtual_address : ℕ
  pub size : ℕ
  pub domain : ℕ
  pub access_rights : ℕ
  pub is_cached : ℕ

-- What goes to the caches, the bus and the registers.
pub data Operation : Type 0 where
  flush_entries : ℕ → ℕ → Operation
  flush_all : Operation
  invalidate_entries : ℕ → ℕ → Operation
  invalidate_all : Operation
  invalidate_instructions : Operation
  flush_memory : Operation
  invalidate_tlb : Operation
  ahb_flush_to : ℕ → Operation
  ahb_flush_directly_to : ℕ → Operation
  write16 : ℕ → ℕ → Operation
  read16 : ℕ → Operation
  delay : ℕ → Operation
  set_control_register : ℕ → Operation
  set_domain_access_control_register : ℕ → Operation
  set_translation_table_base_register : ℕ → Operation
  clear_fault_registers : Operation

-- `table` is `MemoryTranslationTable`, 0 for NULL; `words` has a word at each address that is a
-- multiple of 4; the tables have a word for each process; `operations` are the last first.
pub record Mmu : Type 0 where
  pub table : ℕ
  pub words : ℕ → ℕ
  pub heap_current : ℕ
  pub heap_end : ℕ
  pub domain_access_control : ℕ → ℕ
  pub hardware_registers_access : ℕ → ℕ
  pub operations : List Operation

abbrev pub operate : Operation → Mmu → Mmu
operate o s = record s { operations = o ∷ s.operations }

abbrev pub ahb_starlet : ℕ
ahb_starlet = 0

abbrev pub ahb_1 : ℕ
ahb_1 = 1

-- x << n on u32
abbrev pub shl_u32 : ℕ → ℕ → ℕ
shl_u32 x n = x * 2 ^ n % 2 ^ 32

abbrev pub page_entry : ℕ → ℕ
page_entry x = x / 2 ^ 0x14

abbrev pub course_page_entry_value : ℕ → ℕ
course_page_entry_value x = shl_u32 x 0x0C / 2 ^ 0x18

abbrev pub page_domain : ℕ → ℕ
page_domain x = shl_u32 x 5

-- `x & 0x13`
abbrev pub page_type : ℕ → ℕ
page_type x = x / 16 % 2 * 16 + x % 4

abbrev pub section_page : ℕ
section_page = 0x12

abbrev pub course_page : ℕ
course_page = 0x11

abbrev pub course_section : ℕ
course_section = 2

abbrev pub writeback_cache : ℕ
writeback_cache = 0x0C

-- `APX_VALUE(number, access)`
abbrev pub apx_value : ℕ → ℕ → ℕ
apx_value number access = access % 4 * 2 ^ ((2 + number) * 2)

abbrev pub ap_value : ℕ → ℕ
ap_value access = apx_value 3 access

-- The address without its `n` low bits: `x & 0xFFF00000`, `x & 0xFFFFF000` and `x & 0xFFFFFC00`.
abbrev pub without_low : ℕ → ℕ → ℕ
without_low n x = x / 2 ^ n * 2 ^ n

-- `&MemoryTranslationTable[PAGE_ENTRY(virtual_address)]`
abbrev pub entry_address : Mmu → ℕ → ℕ
entry_address s virtual_address = add_u32 s.table (4 * page_entry virtual_address)

abbrev pub set_word : ℕ → ℕ → Mmu → Mmu
set_word a w s = record s { words = update s.words a w }

-- `memset(ptr, 0, size)` on whole words
unfoldable pub clear_words : ℕ → ℕ → Mmu → Mmu
clear_words ptr size s = record s {
  words = λ a. if leb ptr a && ltb a (ptr + size) then 0 else s.words a;
}

-- The second level entry of an address, in the table at the page's address.
abbrev pub course_entry : Mmu → ℕ → ℕ → ℕ
course_entry s entry virtual_address =
    s.words (add_u32 (4 * course_page_entry_value virtual_address) (without_low 10 entry))
