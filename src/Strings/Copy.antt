-- ===== src/Strings/Copy.antt =====
-- `memcpy`, `strncpy`, `strlcpy` and `strlcat` of core/source/string.c. A pointer is an address without
-- wrap-around.
use star_struck.Base.{
  ℕ, zero, suc, ◌+◌, ◌*◌, ◌/◌, ◌%◌, ◌&&◌, ◌==◌, ltb, leb, if◌then◌else◌, update, add_u32, sub_u32,
}
use star_struck.Strings.Memory.{
  Memory, read_word, write_word, write_mem1, mem1_end, set_mem1, set_bytes,
}
use star_struck.Strings.Compare.{strnlen}

-- `n` words of the memory `from`, which a block of registers holds, are stored in `m`.
unfoldable pub store_words : ℕ → Memory → ℕ → ℕ → Memory → Memory
store_words zero from dest src m = m
store_words (suc n) from dest src m =
    store_words n from (dest + 4) (src + 4) (write_word m dest (read_word from src))

-- `rounds` blocks of `n` words: `ldmia` and then `stmia`; for one word, the loop in C.
unfoldable pub copy_blocks : ℕ → ℕ → Memory → ℕ → ℕ → Memory
unfolding store_words
copy_blocks zero n m dest src = m
copy_blocks (suc rounds) n m dest src =
    copy_blocks rounds n (store_words n m dest src m) (dest + 4 * n) (src + 4 * n)

unfoldable pub copy_mem1 : ℕ → Memory → ℕ → ℕ → Memory
copy_mem1 zero m dest src = m
copy_mem1 (suc len) m dest src = copy_mem1 len (write_mem1 m dest (m src)) (dest + 1) (src + 1)

unfoldable pub copy_bytes : ℕ → Memory → ℕ → ℕ → Memory
copy_bytes zero m dest src = m
copy_bytes (suc len) m dest src = copy_bytes len (update m dest (m src)) (dest + 1) (src + 1)

-- The part of `memcpy` behind the words.
unfoldable pub copy_rest : Memory → ℕ → ℕ → ℕ → Memory
copy_rest m input source len =
    if ltb input mem1_end then copy_mem1 len m input source else copy_bytes len m input source

-- Blocks of 8 words, at most one of 4 words, words, and bytes.
unfoldable pub memcpy : Memory → ℕ → ℕ → ℕ → Memory
memcpy m dest src len =
    let n32 = len / 32 in
    let n16 = len % 32 / 16 in
    let n4 = len % 16 / 4 in
    let m32 = copy_blocks n32 8 m dest src in
    let m16 = copy_blocks n16 4 m32 (dest + 32 * n32) (src + 32 * n32) in
    let m4 = copy_blocks n4 1 m16 (dest + (32 * n32 + 16 * n16)) (src + (32 * n32 + 16 * n16)) in
    if len == 0
    then m
    else if (dest % 4 == 0) && (src % 4 == 0)
    then copy_rest m4 (dest + len / 4 * 4) (src + len / 4 * 4) (len % 4)
    else copy_rest m dest src len

-- The loops of `strncpy`: a memory, the next address, and the rounds that are left.
abbrev pub Copying : Type 0
Copying = Memory × ℕ × ℕ

-- In MEM1 the loop ends behind the write of the last byte, but before its count.
unfoldable pub copy_string_mem1 : ℕ → Memory → ℕ → ℕ → Copying
copy_string_mem1 zero m dest src = (m, dest, 0)
copy_string_mem1 (suc n) m dest src =
    let m1 = write_mem1 m dest (m src) in
    let rest = copy_string_mem1 n m1 (dest + 1) (src + 1) in
    if m src == 0 then (m1, dest + 1, suc n) else rest

unfoldable pub copy_string : ℕ → Memory → ℕ → ℕ → Copying
copy_string zero m dest src = (m, dest, 0)
copy_string (suc n) m dest src =
    let rest = copy_string n (update m dest (m src)) (dest + 1) (src + 1) in
    if m src == 0 then (m, dest, suc n) else rest

-- The padding is the loop of `set_memory` with the byte 0.
unfoldable pub strncpy : Memory → ℕ → ℕ → ℕ → Memory
strncpy m dest src maxlen =
    let c1 = copy_string_mem1 maxlen m dest src in
    let c2 = copy_string maxlen m dest src in
    if ltb dest mem1_end then set_mem1 c1.2 c1.0 c1.1 0 else set_bytes c2.2 c2.0 c2.1 0

-- `needed - 1` is the length of the string, or `maxlen - 1` if it is longer.
unfoldable pub strlcpy : Memory → ℕ → ℕ → ℕ → ℕ × Memory
unfolding memcpy
strlcpy m dest src maxlen =
    let needed = add_u32 (strnlen m src (sub_u32 maxlen 1)) 1 in
    let len = if leb maxlen needed then sub_u32 maxlen 1 else needed in
    (sub_u32 needed 1, update (memcpy m dest src len) (dest + len) 0)

unfoldable pub strlcat : Memory → ℕ → ℕ → ℕ → ℕ × Memory
unfolding strlcpy
strlcat m dest src maxlen =
    let used = strnlen m dest (sub_u32 maxlen 1) in
    let r = strlcpy m (dest + used) src (sub_u32 maxlen used) in (add_u32 used r.0, r.1)
