-- ===== src/Strings/Memset.antt =====
-- `memset` of core/source/string.c.
use star_struck.Base.{ℕ, ◌+◌, ◌-◌, ◌*◌, ◌/◌, ◌%◌, ◌^◌, ◌==◌, ◌||◌, ltb, leb, if◌then◌else◌}
use star_struck.Strings.Memory.{Memory, set_memory, set_words, set_blocks}

-- `c | (c << 8) | (c << 16) | (c << 24)`
abbrev pub repeated : ℕ → ℕ
repeated c = c + c * 2 ^ 8 + c * 2 ^ 16 + c * 2 ^ 24

unfoldable pub set_memory_short : Memory → ℕ → ℕ → ℕ → Memory
unfolding set_words set_blocks
set_memory_short m dest c len =
    set_words (len % 16 / 4) (set_blocks (len / 16) m dest (repeated c)) (dest + len / 16 * 16)
      (repeated c)

-- The last part: `cnt` bytes in words, and the rest of `length` one by one.
unfoldable pub set_rest : Memory → ℕ → ℕ → ℕ → ℕ → Memory
unfolding set_memory_short set_memory
set_rest m destination byte cnt length =
    let m1 = if cnt == 0 then m else set_memory_short m destination byte cnt in
    if length - cnt == 0 then m1 else set_memory m1 (destination + cnt) byte (length - cnt)

-- From a word-aligned destination to one that is aligned to 16 bytes: `cnt` bytes, of which those
-- that fill words are written as words.
unfoldable pub set_to_16 : Memory → ℕ → ℕ → ℕ → Memory
unfolding set_words set_memory
set_to_16 m destination byte cnt =
    let m1 = set_words (cnt / 4 % 4) m destination (repeated byte) in
    let left = if cnt / 4 % 4 == 0 then cnt else cnt % 4 in
    if left == 0 then m1 else set_memory m1 destination byte left

unfoldable pub set_aligned : Memory → ℕ → ℕ → ℕ → Memory
unfolding set_to_16 set_rest
set_aligned m destination byte length =
    let cnt = 16 - destination % 16 in
    let rest = length - 16 + destination % 16 in
    if ltb length 0x101 || (destination % 16 == 0)
    then set_rest m destination byte (length / 4 * 4) length
    else if ltb length cnt
    then set_to_16 m destination byte length
    else set_rest (set_to_16 m destination byte cnt) (destination / 16 * 16 + 16) byte
        (rest / 16 * 16) rest

unfoldable pub memset : Memory → ℕ → ℕ → ℕ → Memory
unfolding set_aligned set_memory
memset m dest character length =
    let byte = character % 2 ^ 8 in
    let cnt = 4 - dest % 4 in
    if length == 0
    then m
    else if dest % 4 == 0
    then set_aligned m dest byte length
    else if leb length cnt
    then set_memory m dest byte length
    else set_aligned (set_memory m dest byte cnt) (dest / 4 * 4 + 4) byte (length - cnt)
