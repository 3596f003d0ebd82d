-- ===== src/Seeprom/Transfer.antt =====
-- The transfers of kernel/source/crypto/seeprom.c. The chip is a parameter: `miso` is its answer to
-- the rising edges so far.
use star_struck.Base.{
  ℕ, zero, suc, ◌+◌, ◌*◌, ◌/◌, ◌%◌, ◌^◌, ltb, Bool, true, false, List, [], ◌∷◌, if◌then◌else◌, ℤ,
  pos, negsuc, eq_int,
}
use star_struck.Seeprom.Pins.{Edge, Pins, bit, send_bit, receive_edge, send_zero}

abbrev pub ipc_success : ℤ
ipc_success = pos 0

abbrev pub ipc_einval : ℤ
ipc_einval = negsuc 3

abbrev ipc_unknown : ℤ
ipc_unknown = negsuc 8

abbrev pub Miso : Type 0
Miso = List Edge → Bool

unfoldable pub send_loop : ℕ → ℕ → Pins → Pins
send_loop zero value p = p
send_loop (suc n) value p = send_loop n value (send_bit (bit n value) p)

unfoldable pub send_bits : ℕ → ℕ → Pins → ℤ × Pins
unfolding send_loop
send_bits n value p = if ltb 32 n then (ipc_einval, p) else (ipc_success, send_loop n value p)

unfoldable pub send_zeros : ℕ → Pins → Pins
send_zeros zero p = p
send_zeros (suc n) p = send_zeros n (send_zero p)

-- `out |= 1u << n` of a bit that `out` has not set yet.
unfoldable pub receive_loop : Miso → ℕ → ℕ → Pins → ℕ × Pins
receive_loop miso zero out p = (out, p)
receive_loop miso (suc n) out p =
    let q = receive_edge p in receive_loop miso n (out + (if miso q.edges then 2 ^ n else 0)) q

-- The code, what `*data` is then, and the wires.
unfoldable pub receive_bits : Miso → ℕ → ℕ → Pins → ℤ × ℕ × Pins
unfolding receive_loop
receive_bits miso n content p =
    if ltb 32 n
    then (ipc_einval, content, p)
    else (let r = receive_loop miso n 0 p in (ipc_success, r.0, r.1))

-- The polling loop with `n` of its 100 rounds left: its code, whether it broke off, and the wires.
unfoldable pub poll : Miso → ℕ → ℤ → Pins → ℤ × Bool × Pins
unfolding receive_bits
poll miso zero code p = (code, false, p)
poll miso (suc n) code p =
    let r = receive_bits miso 10 0 p in
    let rest = poll miso n r.0 r.2 in if bit 0 r.1 then (r.0, true, r.2) else rest

unfoldable pub wait_not_busy : Miso → Pins → ℤ × Pins
unfolding poll send_zeros
wait_not_busy miso p =
    let r = poll miso 100 ipc_success p in
    let q = send_zeros 2 r.2 in if r.1 then (r.0, q) else (ipc_unknown, q)

unfoldable pub send_command : ℕ → Pins → ℤ × Pins
unfolding send_bits send_zeros
send_command command p =
    let r = send_bits 11 command p in if eq_int r.0 ipc_success then (r.0, send_zeros 2 r.1) else r

abbrev pub send_write_enable : Pins → ℤ × Pins
send_write_enable p = send_command 0x4c0 p

abbrev pub send_write_disable : Pins → ℤ × Pins
send_write_disable p = send_command 0x400 p

-- `0x500 | (offset & 0xff)` is a sum, for the bits are apart, and so are those of the 16-bit value.
unfoldable pub send_word : Miso → ℕ → ℕ → Pins → ℤ × Pins
unfolding send_bits wait_not_busy
send_word miso offset value p =
    let r = send_bits 27 ((0x500 + offset % 0x100) * 2 ^ 16 + value % 2 ^ 16) p in
    if eq_int r.0 ipc_success then wait_not_busy miso (send_zeros 2 r.1) else r

-- `content` is what `*data` holds before.
unfoldable pub read_word : Miso → ℕ → ℕ → Pins → ℤ × ℕ × Pins
unfolding send_bits receive_bits send_zeros
read_word miso offset content p =
    let r = send_bits 11 (0x600 + offset % 0x100) p in
    let w = receive_bits miso 16 content r.1 in
    if eq_int r.0 ipc_success
    then (w.0, w.1, (if eq_int w.0 ipc_success then send_zeros 2 w.2 else w.2))
    else (r.0, content, r.1)

-- The bytes that `ReadBuffer` has written when it returns.
unfoldable pub read_buffer : Miso → ℕ → ℕ → Pins → ℤ × List ℕ × Pins
unfolding read_word
read_buffer miso offset zero p = (ipc_success, [], p)
read_buffer miso offset (suc n) p =
    let w = read_word miso offset 0 p in
    let rest = read_buffer miso (offset + 1) n w.2 in
    if eq_int w.0 ipc_success
    then (rest.0, ((w.1 / 0x100) % 0x100) ∷ (w.1 % 0x100) ∷ rest.1, rest.2)
    else (w.0, [], w.2)
