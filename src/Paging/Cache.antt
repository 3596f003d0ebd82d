-- ===== src/Paging/Cache.antt =====
-- The caches and the memory controller: the functions of kernel/source/memory/memory.c that give
-- operations to them. A range of addresses is given to the cache by lines of 32 bytes.
use star_struck.Base.{
  ℕ, ◌+◌, ◌-◌, ◌*◌, ◌/◌, ◌%◌, ◌^◌, List, [], ◌∷◌, ◌++◌, Bool, leb, ◌==◌, ◌||◌, if◌then◌else◌, ℤ,
  eq_int, add_u32, sub_u32, bit_xor,
}
use star_struck.Threads.Syscalls.{success}
use star_struck.Paging.State.{
  Operation, flush_entries, flush_all, invalidate_entries, invalidate_all, invalidate_instructions,
  flush_memory, invalidate_tlb, ahb_flush_to, ahb_flush_directly_to, write16, read16, delay,
  set_control_register, ahb_starlet, ahb_1, without_low,
}

-- `ALIGN_FORWARD` and `ALIGN_BACKWARD`
abbrev pub align_forward : ℕ → ℕ
align_forward address = without_low 5 (add_u32 address (0x20 - 1))

abbrev pub align_backward : ℕ → ℕ
align_backward address = without_low 5 address

abbrev pub memblock_count : ℕ → ℕ → ℕ
memblock_count start end = sub_u32 end start / 0x20

-- The operations of a function, in their order.
unfoldable pub dc_flush_range : ℕ → ℕ → List Operation
dc_flush_range start size =
    let first = align_backward start in
    let end = align_forward (add_u32 first size) in
    let flush =
      if leb size 0x4000 then flush_entries first (memblock_count first end) else flush_all in
    if size == 0 then [] else flush ∷ flush_memory ∷ ahb_flush_directly_to ahb_1 ∷ []

unfoldable pub dc_flush_all : List Operation
dc_flush_all = flush_all ∷ flush_memory ∷ ahb_flush_directly_to ahb_1 ∷ []

-- `checked` is the result of `CheckMemoryPointer`.
unfoldable pub dc_invalidate_range : ℤ → ℕ → ℕ → List Operation
dc_invalidate_range checked start size =
    let first = align_backward start in
    let end = align_forward (add_u32 first size) in
    let invalidate =
      if leb size 0x4000
      then invalidate_entries first (memblock_count first end)
      else invalidate_all in
    if eq_int checked success
    then (if size == 0 then [] else invalidate ∷ ahb_flush_to ahb_starlet ∷ [])
    else []

unfoldable pub ic_invalidate_all : List Operation
ic_invalidate_all = invalidate_instructions ∷ ahb_flush_to ahb_starlet ∷ []

-- `mirror` is the value of `HW_MEMMIRR`.
unfoldable pub dma_addr : ℕ → ℕ → ℕ
dma_addr mirror p =
    let page = p / 2 ^ 20 in
    let swapped = if mirror / 0x20 % 2 == 1 then bit_xor p 0x10000 else p in
    if (page == 0xfff) || (page == 0x0d4) || (page == 0x0dc)
    then swapped % 0x20000 + 0x0d400000
    else p

-- The control register without the bits of the MMU and the caches, 0, 2 and 12.
abbrev pub disabled : ℕ → ℕ
disabled cr = cr - cr % 2 - cr / 4 % 2 * 4 - cr / 2 ^ 12 % 2 * 2 ^ 12

unfoldable pub mem_shutdown : ℕ → List Operation
mem_shutdown cr =
    flush_all
    ∷ flush_memory
    ∷ set_control_register (disabled cr)
    ∷ invalidate_instructions
    ∷ invalidate_all
    ∷ invalidate_tlb
    ∷ []

abbrev pub mem_reg_base : ℕ
mem_reg_base = 0x0d8b4000

abbrev pub mem_prot : ℕ
mem_prot = mem_reg_base + 0x200 + 0x0a

abbrev pub mem_prot_start : ℕ
mem_prot_start = mem_reg_base + 0x200 + 0x0c

abbrev pub mem_prot_end : ℕ
mem_prot_end = mem_reg_base + 0x200 + 0x0e

unfoldable pub protect_memory : Bool → ℕ → ℕ → List Operation
protect_memory enable start end =
    write16 mem_prot (if enable then 1 else 0)
    ∷ write16 mem_prot_start (start % 2 ^ 28 / 2 ^ 12)
    ∷ write16 mem_prot_end (end % 2 ^ 28 / 2 ^ 12)
    ∷ delay 10
    ∷ []

abbrev pub set_memory_registry_value : ℕ → ℕ → List Operation
set_memory_registry_value offset value = write16 (add_u32 mem_reg_base (offset * 2)) value ∷ []

abbrev pub get_memory_registry_value : ℕ → List Operation
get_memory_registry_value offset = read16 (add_u32 mem_reg_base (offset * 2)) ∷ []

-- The read makes the address arrive.
unfoldable pub set_ddr_registry_value : ℕ → ℕ → List Operation
set_ddr_registry_value addr value =
    set_memory_registry_value 0x3a addr
    ++ (get_memory_registry_value 0x3a ++ set_memory_registry_value 0x3b value)

unfoldable pub get_ddr_registry_value : ℕ → List Operation
get_ddr_registry_value addr =
    set_memory_registry_value 0x3a addr
    ++ (get_memory_registry_value 0x3a ++ get_memory_registry_value 0x3b)

unfoldable pub set_ddr_seq_data : ℕ → ℕ → List Operation
unfolding set_ddr_registry_value get_ddr_registry_value
set_ddr_seq_data value addr =
    set_ddr_registry_value 0x163 value
    ++ (get_ddr_registry_value 0x163 ++ set_ddr_registry_value 0x162 addr)

unfoldable pub set_memory_compatability_mode : List Operation
unfolding set_ddr_registry_value
set_memory_compatability_mode = set_ddr_registry_value 0x100 1

unfoldable pub configure_ddr_memory : List Operation
unfolding set_ddr_registry_value set_ddr_seq_data
configure_ddr_memory =
    set_ddr_registry_value 0x10b 7
    ++ (set_ddr_seq_data 0x15 0x00
        ++ (set_ddr_seq_data 0x18 0x01
            ++ (set_ddr_seq_data 0x19 0x00
                ++ (set_ddr_seq_data 0x4a 0x0E
                    ++ (set_ddr_seq_data 0x0f 0x08
                        ++ (set_ddr_seq_data 0x03 0x0E
                            ++ (set_ddr_seq_data 0x49 0x0E
                                ++ ((delay 2 ∷ [])
                                    ++ (set_ddr_seq_data 0x49 0x0F ++ (delay 2 ∷ []))))))))))
