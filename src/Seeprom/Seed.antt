-- ===== src/Seeprom/Seed.antt =====
-- The seed of kernel/source/crypto/seeprom.c.
use star_struck.Base.{ℕ, ◌+◌, ◌*◌, ◌%◌, ◌^◌, ◌==◌, if◌then◌else◌, ℤ, pos, negsuc, eq_int, ltb, ◌-◌}
use star_struck.Seeprom.Pins.{Pins}
use star_struck.Seeprom.Transfer.{
  Miso, read_word, send_word, send_write_enable, send_write_disable, ipc_success,
}

-- (s32)x of an unsigned 32-bit value
abbrev pub to_s32 : ℕ → ℤ
to_s32 x = if ltb x (2 ^ 31) then pos x else negsuc ((2 ^ 32 - 1) - x)

unfoldable pub get_prng_seed : Miso → Pins → ℤ × Pins
unfolding read_word
get_prng_seed miso p =
    let lo = read_word miso 0x7c 0 p in
    let hi = read_word miso 0x7d 0 lo.2 in
    if eq_int lo.0 ipc_success
    then (if eq_int hi.0 ipc_success then (to_s32 (hi.1 * 2 ^ 16 + lo.1), hi.2) else (hi.0, hi.2))
    else (lo.0, lo.2)

-- The two words of the next seed: the low one, and the high one.
unfoldable pub next_words : ℕ → ℕ → ℕ × ℕ
next_words lo hi = if lo == 0xFFFF then (0, (if hi == 0xFFFF then 0 else hi + 1)) else (lo + 1, hi)

unfoldable pub update_prng_seed : Miso → Pins → ℤ × Pins
unfolding read_word next_words send_word
update_prng_seed miso p =
    let lo = read_word miso 0x7c 0 p in
    let hi = read_word miso 0x7d 0 lo.2 in
    let words = next_words lo.1 hi.1 in
    let enabled = send_write_enable hi.2 in
    let first = send_word miso 0x7c (words.0 % 2 ^ 16) enabled.1 in
    let second = send_word miso 0x7d (words.1 % 2 ^ 16) first.1 in
    let sent = if eq_int first.0 ipc_success then second else first in
    if eq_int lo.0 ipc_success
    then (if eq_int hi.0 ipc_success
        then (if eq_int enabled.0 ipc_success
            then (sent.0, (send_write_disable sent.1).1)
            else enabled)
        else (hi.0, hi.2))
    else (lo.0, lo.2)
