-- ===== src/Heaps/State.antt =====
-- The heap table and the block headers of kernel/source/memory/heaps.h and heaps.c.
use Prim.Native.Nat.{bit_and}
use star_struck.Base.{
  ℕ, ◌+◌, ◌-◌, ◌*◌, ◌/◌, ◌%◌, ◌^◌, ℤ, negsuc, update, ltb, ◌&&◌, if◌then◌else◌, leb, add_u32,
}

abbrev pub max_heap : ℕ
max_heap = 0x10

-- `ALIGNED_BLOCK_HEADER_SIZE`, and `sizeof(HeapBlock)` too
abbrev pub aligned_block_header_size : ℕ
aligned_block_header_size = 0x10

abbrev pub ipc_eacces : ℤ
ipc_eacces = negsuc 0

abbrev pub ipc_einval : ℤ
ipc_einval = negsuc 3

abbrev pub ipc_emax : ℤ
ipc_emax = negsuc 4

abbrev pub null : ℕ
null = 0

-- The values of `HeapBlockState`.
abbrev pub heap_block_init : ℕ
heap_block_init = 0xBABE0000

abbrev pub heap_block_in_use : ℕ
heap_block_in_use = 0xBABE0001

abbrev pub heap_block_aligned : ℕ
heap_block_aligned = 0xBABE0002

-- The four words of a header, and so of any 16 bytes at a multiple of 16.
pub record HeapBlock : Type 0 where
  pub block_state : ℕ
  pub size : ℕ
  pub previous_block : ℕ
  pub next_block : ℕ

pub record HeapInfo : Type 0 where
  pub heap : ℕ
  pub process_id : ℕ
  pub heap_size : ℕ
  pub first_block : ℕ

-- `memory` gives the 16 bytes at an address that is a multiple of 16; the blocks of a heap, which
-- begins at a multiple of 32, stand at such addresses. `current_process` is
-- `CurrentThread->ProcessId`.
pub record Heaps : Type 0 where
  pub heaps : ℕ → HeapInfo
  pub memory : ℕ → HeapBlock
  pub current_process : ℕ

abbrev pub set_info : Heaps → ℕ → HeapInfo → Heaps
set_info h i info = record h { heaps = update h.heaps i info }

abbrev pub set_memory : Heaps → (ℕ → HeapBlock) → Heaps
set_memory h m = record h { memory = m }

abbrev pub set_next : (ℕ → HeapBlock) → ℕ → ℕ → ℕ → HeapBlock
set_next m b v = update m b (record (m b) { next_block = v })

abbrev pub set_previous : (ℕ → HeapBlock) → ℕ → ℕ → ℕ → HeapBlock
set_previous m b v = update m b (record (m b) { previous_block = v })

abbrev pub set_size : (ℕ → HeapBlock) → ℕ → ℕ → ℕ → HeapBlock
set_size m b v = update m b (record (m b) { size = v })

abbrev pub set_block_state : (ℕ → HeapBlock) → ℕ → ℕ → ℕ → HeapBlock
set_block_state m b v = update m b (record (m b) { block_state = v })

-- `memset(.., 0, size)` of a word of which `n` bytes are in the area
abbrev pub clear_word : ℕ → ℕ → ℕ
clear_word n w = if leb 4 n then 0 else w % 256 ^ (4 - n)

abbrev pub clear_block : ℕ → HeapBlock → HeapBlock
clear_block n b = record {
  block_state = clear_word n b.block_state;
  size = clear_word (n - 4) b.size;
  previous_block = clear_word (n - 8) b.previous_block;
  next_block = clear_word (n - 12) b.next_block;
}

-- `memset((u8 *)p, 0, size)` for a multiple of 16
unfoldable pub clear_memory : ℕ → ℕ → (ℕ → HeapBlock) → ℕ → HeapBlock
clear_memory p size m a =
    if leb p a && ltb a (p + size) then clear_block (p + size - a) (m a) else m a

-- The bytes to skip from the end of the header at `block` to the next multiple of `alignment`.
unfoldable pub offset_of : ℕ → ℕ → ℕ
offset_of alignment block =
    bit_and (alignment - bit_and (add_u32 block 0x10) (alignment - 1)) (alignment - 1)

-- `(size + 0x1F) & 0xFFFFFFE0`
abbrev pub aligned_size_of : ℕ → ℕ
aligned_size_of size = add_u32 size 0x1F / 0x20 * 0x20
