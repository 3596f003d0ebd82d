-- ===== src/Seeprom/Counters.antt =====
-- The NAND counters in the serial EEPROM: kernel/source/crypto/nand.c, nand.h, and the functions of
-- kernel/source/crypto/seeprom.c that read and write them.
use star_struck.Base.{
  ℕ, zero, suc, ◌+◌, ◌-◌, ◌*◌, ◌/◌, ◌%◌, ◌^◌, ltb, leb, ◌==◌, List, [], ◌∷◌, Option, none, some,
  if◌then◌else◌, ℤ, negsuc, eq_int,
}
use star_struck.Seeprom.Pins.{Pins}
use star_struck.Seeprom.Seed.{to_s32}
use star_struck.Seeprom.Transfer.{
  Miso, read_word, send_word, send_write_enable, send_write_disable, ipc_success, ipc_einval,
}

abbrev pub ipc_emax : ℤ
ipc_emax = negsuc 4

-- `Data[0]` and `Data[1]`, which `NandGen` covers, and the checksum; the processor is big-endian.
pub record NandCounter : Type 0 where
  pub first : ℕ
  pub second : ℕ
  pub checksum : ℕ

abbrev pub nand_gen : NandCounter → ℕ
nand_gen c = c.first * 2 ^ 16 + c.second

unfoldable pub compute_counter_checksum : NandCounter → ℕ
compute_counter_checksum c = ((0 + c.first) % 2 ^ 16 + c.second) % 2 ^ 16

-- The rounds for one counter: the code, what `value` is then, the words, and the wires. A word that
-- fails is stored too, and the words behind it stay 0.
unfoldable pub read_counter : Miso → ℕ → ℕ → Pins → ℤ × ℕ × NandCounter × Pins
read_counter miso offset value p =
    let a = read_word miso offset value p in
    let b = read_word miso (offset + 1) a.1 a.2 in
    let c = read_word miso (offset + 2) b.1 b.2 in
    let x = a.1 % 2 ^ 16 in
    let y = b.1 % 2 ^ 16 in
    let z = c.1 % 2 ^ 16 in
    if eq_int a.0 ipc_success
    then (if eq_int b.0 ipc_success
        then (c.0, c.1, record { first = x; second = y; checksum = z }, c.2)
        else (b.0, b.1, record { first = x; second = y; checksum = 0 }, b.2))
    else (a.0, a.1, record { first = x; second = 0; checksum = 0 }, a.2)

-- The counters from `current` on, `n` of them, with the code of the last.
unfoldable pub read_counters : Miso → ℕ → ℕ → ℤ → Pins → ℤ × List NandCounter × Pins
unfolding read_counter
read_counters miso zero current code p = (code, [], p)
read_counters miso (suc n) current code p =
    let r = read_counter miso ((0x5c + current * 6) / 2) 0 p in
    let rest = read_counters miso n (current + 1) r.0 r.3 in (rest.0, r.2 ∷ rest.1, rest.2)

-- The local variables of the choice; `index` is `none` for -1, and `ptr_out` is the counter that it
-- points to.
pub record Choice : Type 0 where
  pub index : Option ℕ
  pub ptr_out : Option NandCounter
  pub highest_value : ℕ
  pub lowest_value : ℕ

abbrev pub no_choice : Choice
no_choice = record { index = none; ptr_out = none; highest_value = 0; lowest_value = 2 ^ 32 - 1 }

unfoldable pub raise_highest : NandCounter → Choice → Choice
raise_highest c s =
    if leb s.highest_value (nand_gen c)
    then record s { ptr_out = some c; highest_value = nand_gen c }
    else s

unfoldable pub lower_lowest : ℕ → NandCounter → Choice → Choice
lower_lowest current c s =
    if ltb (nand_gen c) s.lowest_value
    then record s { index = some current; lowest_value = nand_gen c }
    else s

unfoldable pub consider : ℕ → NandCounter → Choice → Choice
consider current c s =
    if compute_counter_checksum c == c.checksum
    then lower_lowest current c (raise_highest c s)
    else record s { index = some current; lowest_value = 0 }

unfoldable pub choose : ℕ → List NandCounter → Choice → Choice
choose current [] s = s
choose current (c ∷ cs) s = choose (current + 1) cs (consider current c s)

-- What `NAND_GetCounter` gives of a choice: the counter and the index, where there are both.
abbrev pub chosen : Choice → Option (NandCounter × ℕ)
chosen s = elim (s.ptr_out) [
  | none ↦ none
  | some c ↦ elim (s.index) [ none ↦ none | some i ↦ some (c, i) ]
]

-- The code, and the counter with its index where they are written.
unfoldable pub get_counter : Miso → Pins → ℤ × Option (NandCounter × ℕ) × Pins
unfolding read_counters choose
get_counter miso p =
    let r = read_counters miso 3 0 ipc_success p in
    elim (chosen (choose 0 r.1 no_choice)) [
      | none ↦ (ipc_emax, none, r.2)
      | some c ↦ (r.0, some c, r.2)
    ]

-- `NAND_UpdateCounter`, with an index that is not negative.
unfoldable pub update_counter : Miso → NandCounter → ℕ → Pins → ℤ × Pins
update_counter miso c index p =
    let offset = (0x5c + index * 6) / 2 in
    let enabled = send_write_enable p in
    let first = send_word miso offset c.first enabled.1 in
    let second = send_word miso (offset + 1) c.second first.1 in
    let third = send_word miso (offset + 2) c.checksum second.1 in
    let sent =
      if eq_int first.0 ipc_success
      then (if eq_int second.0 ipc_success then third else second)
      else first in
    if leb 3 index
    then (ipc_einval, p)
    else (if eq_int enabled.0 ipc_success then (sent.0, (send_write_disable sent.1).1) else enabled)

unfoldable pub get_gen : Miso → Pins → ℤ × Pins
unfolding get_counter
get_gen miso p =
    let r = get_counter miso p in
    elim (r.1) [
      | none ↦ (r.0, r.2)
      | some c ↦ if eq_int r.0 ipc_success then (to_s32 (nand_gen (c.0)), r.2) else (r.0, r.2)
    ]

-- The generation plus one, in 32 bits, with its checksum.
unfoldable pub next_counter : NandCounter → NandCounter
unfolding compute_counter_checksum
next_counter c =
    let gen = (nand_gen c + 1) % 2 ^ 32 in
    let raised = record c { first = gen / 2 ^ 16; second = gen % 2 ^ 16 } in
    record raised { checksum = compute_counter_checksum raised }

unfoldable pub update_gen : Miso → Pins → ℤ × Pins
unfolding get_counter next_counter update_counter
update_gen miso p =
    let r = get_counter miso p in
    elim (r.1) [
      | none ↦ (r.0, r.2)
      | some c ↦
          if eq_int r.0 ipc_success
          then update_counter miso (next_counter (c.0)) (c.1) r.2
          else (r.0, r.2)
    ]
