-- ===== src/Strings/Memory.antt =====
-- The byte and word accesses of core/source/string.c. A memory has a byte at each address; the processor
-- is big-endian. A store of a byte to MEM1 writes the whole word around it.
use star_struck.Base.{ℕ, zero, suc, ◌+◌, ◌-◌, ◌*◌, ◌/◌, ◌%◌, ◌^◌, ltb, if◌then◌else◌, update}

abbrev pub Memory : Type 0
Memory = ℕ → ℕ

abbrev pub word : ℕ → ℕ → ℕ → ℕ → ℕ
word a b c d = a * 2 ^ 24 + b * 2 ^ 16 + c * 2 ^ 8 + d

abbrev pub read_word : Memory → ℕ → ℕ
read_word m a = word (m a) (m (a + 1)) (m (a + 2)) (m (a + 3))

unfoldable pub write_word : Memory → ℕ → ℕ → Memory
write_word m a w =
    update
      (update (update (update m a (w / 2 ^ 24 % 2 ^ 8)) (a + 1) (w / 2 ^ 16 % 2 ^ 8)) (a + 2)
        (w / 2 ^ 8 % 2 ^ 8))
      (a + 3) (w % 2 ^ 8)

-- `(w & ~(0xFF << offset)) | (data << offset)`: the byte at `offset` is taken out, and then put in.
abbrev pub put_byte : ℕ → ℕ → ℕ → ℕ
put_byte w offset byte = w - w / 2 ^ offset % 2 ^ 8 * 2 ^ offset + byte * 2 ^ offset

-- A byte of MEM1.
unfoldable pub write_mem1 : Memory → ℕ → ℕ → Memory
unfolding write_word
write_mem1 m input byte =
    let address = input / 4 * 4 in
    write_word m address (put_byte (read_word m address) (24 - input % 4 * 8) byte)

abbrev pub mem1_end : ℕ
mem1_end = 0x1800000

-- The loops of `set_memory`: `len` rounds from `input` on.
unfoldable pub set_mem1 : ℕ → Memory → ℕ → ℕ → Memory
unfolding write_mem1
set_mem1 zero m input byte = m
set_mem1 (suc len) m input byte = set_mem1 len (write_mem1 m input byte) (input + 1) byte

unfoldable pub set_bytes : ℕ → Memory → ℕ → ℕ → Memory
set_bytes zero m input byte = m
set_bytes (suc len) m input byte = set_bytes len (update m input byte) (input + 1) byte

unfoldable pub set_memory : Memory → ℕ → ℕ → ℕ → Memory
unfolding set_mem1 set_bytes
set_memory m dest byte len =
    if ltb dest mem1_end then set_mem1 len m dest byte else set_bytes len m dest byte

-- The same word at `n` places.
unfoldable pub set_words : ℕ → Memory → ℕ → ℕ → Memory
unfolding write_word
set_words zero m address w = m
set_words (suc n) m address w = set_words n (write_word m address w) (address + 4) w

-- `stmia` of four registers with the same word; the instruction advances the address.
abbrev pub store_four : Memory → ℕ → ℕ → Memory
store_four m address w =
    write_word (write_word (write_word (write_word m address w) (address + 4) w) (address + 8) w)
      (address + 12) w

unfoldable pub set_blocks : ℕ → Memory → ℕ → ℕ → Memory
unfolding write_word
set_blocks zero m address w = m
set_blocks (suc n) m address w = set_blocks n (store_four m address w) (address + 16) w
