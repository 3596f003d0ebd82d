-- ===== src/Seeprom/Boot2.antt =====
-- The boot2 counters in the serial EEPROM: kernel/source/crypto/boot2.c, boot2.h, and the functions of
-- kernel/source/crypto/seeprom.c that read and write them.
use star_struck.Base.{
  ℕ, zero, suc, ◌+◌, ◌-◌, ◌*◌, ◌/◌, ◌%◌, ◌^◌, ltb, leb, ◌==◌, List, [], ◌∷◌, ◌++◌, Option, none,
  some, if◌then◌else◌, ℤ, pos, eq_int, get_or, replicate,
}
use star_struck.Seeprom.Pins.{Pins}
use star_struck.Seeprom.Transfer.{
  Miso, read_word, send_word, send_write_enable, send_write_disable, ipc_success, ipc_einval,
}
use star_struck.Seeprom.Counters.{ipc_emax}

-- `Data` and the checksum, by words; the processor is big-endian.
pub record Boot2Counter : Type 0 where
  pub data0 : ℕ
  pub data1 : ℕ
  pub data2 : ℕ
  pub data3 : ℕ
  pub checksum : ℕ

abbrev pub version : Boot2Counter → ℕ
version c = c.data0 / 2 ^ 8

abbrev pub unk1 : Boot2Counter → ℕ
unk1 c = c.data0 % 2 ^ 8

abbrev pub unk2 : Boot2Counter → ℕ
unk2 c = c.data1 / 2 ^ 8

abbrev pub update_tag : Boot2Counter → ℕ
update_tag c = c.data2 * 2 ^ 16 + c.data3

unfoldable pub boot2_checksum : Boot2Counter → ℕ
boot2_checksum c =
    ((((0 + c.data0) % 2 ^ 16 + c.data1) % 2 ^ 16 + c.data2) % 2 ^ 16 + c.data3) % 2 ^ 16

abbrev pub words_of : Boot2Counter → List ℕ
words_of c = c.data0 ∷ c.data1 ∷ c.data2 ∷ c.data3 ∷ c.checksum ∷ []

-- The counter whose first word is at `i`.
abbrev pub counter_at : List ℕ → ℕ → Boot2Counter
counter_at ws i = record {
  data0 = get_or ws i 0;
  data1 = get_or ws (i + 1) 0;
  data2 = get_or ws (i + 2) 0;
  data3 = get_or ws (i + 3) 0;
  checksum = get_or ws (i + 4) 0;
}

-- The rounds for the words of one counter, `n` left; a word that fails is stored too, and the words
-- behind it stay 0.
unfoldable pub read_words : Miso → ℕ → ℕ → ℤ → ℕ → Pins → ℤ × List ℕ × Pins
read_words miso zero offset code value p = (code, [], p)
read_words miso (suc n) offset code value p =
    let w = read_word miso offset value p in
    let rest = read_words miso n (offset + 1) w.0 w.1 w.2 in
    if eq_int w.0 ipc_success
    then (rest.0, (w.1 % 2 ^ 16) ∷ rest.1, rest.2)
    else (w.0, (w.1 % 2 ^ 16) ∷ replicate n 0, w.2)

-- The words of both counters.
unfoldable pub read_boot2_counters : Miso → Pins → ℤ × List ℕ × Pins
unfolding read_words
read_boot2_counters miso p =
    let a = read_words miso 5 ((0x48 + 0 * 10) / 2) ipc_success 0 p in
    let b = read_words miso 5 ((0x48 + 1 * 10) / 2) a.0 0 a.2 in (b.0, a.1 ++ b.1, b.2)

-- The local variables of the choice; `ptr_out` is a place among the words of both counters.
pub record Boot2Choice : Type 0 where
  pub index : Option ℕ
  pub ptr_out : Option ℕ
  pub highest_value : ℕ
  pub lowest_value : ℕ

abbrev pub no_boot2_choice : Boot2Choice
no_boot2_choice = record {
  index = none;
  ptr_out = none;
  highest_value = 0;
  lowest_value = 2 ^ 32 - 1;
}

-- `data_ptr` is the address of `UpdateTag`, two words behind the start of the counter.
unfoldable pub raise_boot2 : ℕ → ℕ → Boot2Choice → Boot2Choice
raise_boot2 current current_value s =
    if leb s.highest_value current_value
    then record s { ptr_out = some (current * 5 + 2); highest_value = current_value }
    else s

unfoldable pub lower_boot2 : ℕ → ℕ → Boot2Choice → Boot2Choice
lower_boot2 current current_value s =
    if ltb current_value s.lowest_value
    then record s { index = some current; lowest_value = current_value }
    else s

unfoldable pub consider_boot2 : ℕ → Boot2Counter → Boot2Choice → Boot2Choice
unfolding boot2_checksum raise_boot2 lower_boot2
consider_boot2 current c s =
    if boot2_checksum c == c.checksum
    then lower_boot2 current (update_tag c) (raise_boot2 current (update_tag c) s)
    else record s { index = some current; lowest_value = 0 }

unfoldable pub choose_boot2 : List ℕ → Boot2Choice
choose_boot2 ws =
    consider_boot2 1 (counter_at ws 5) (consider_boot2 0 (counter_at ws 0) no_boot2_choice)

-- What is copied from `ptr_out`, with the words behind the array in `stack`, and the index.
unfoldable pub copied_boot2 : List ℕ → List ℕ → Boot2Choice → Option (Boot2Counter × ℕ)
copied_boot2 stack ws s = elim (s.ptr_out) [
  | none ↦ none
  | some q ↦ elim (s.index) [ none ↦ none | some i ↦ some (counter_at (ws ++ stack) q, i) ]
]

unfoldable pub get_boot2_counter : List ℕ → Miso → Pins → ℤ × Option (Boot2Counter × ℕ) × Pins
unfolding read_boot2_counters choose_boot2 copied_boot2
get_boot2_counter stack miso p =
    let r = read_boot2_counters miso p in
    elim (copied_boot2 stack r.1 (choose_boot2 r.1)) [
      | none ↦ (ipc_emax, none, r.2)
      | some c ↦ (r.0, some c, r.2)
    ]

-- The words from `offset` on, up to the first that fails.
unfoldable pub send_words : Miso → List ℕ → ℕ → ℤ → Pins → ℤ × Pins
send_words miso [] offset code p = (code, p)
send_words miso (w ∷ ws) offset code p =
    let r = send_word miso offset w p in
    let rest = send_words miso ws (offset + 1) r.0 r.1 in if eq_int r.0 ipc_success then rest else r

-- `BOOT2_UpdateCounter`, with an index that is not negative.
unfoldable pub update_boot2_counter : Miso → Boot2Counter → ℕ → Pins → ℤ × Pins
unfolding send_words
update_boot2_counter miso c index p =
    let enabled = send_write_enable p in
    let sent = send_words miso (words_of c) ((0x48 + index * 10) / 2) enabled.0 enabled.1 in
    if leb 2 index
    then (ipc_einval, p)
    else (if eq_int enabled.0 ipc_success then (sent.0, (send_write_disable sent.1).1) else enabled)

-- `BOOT2_GetVersion`, `BOOT2_GetUnk1` and `BOOT2_GetUnk2`, with the field that they return.
unfoldable pub get_boot2_field : (Boot2Counter → ℕ) → List ℕ → Miso → Pins → ℤ × Pins
unfolding get_boot2_counter
get_boot2_field field stack miso p =
    let r = get_boot2_counter stack miso p in
    elim (r.1) [
      | none ↦ (r.0, r.2)
      | some c ↦ if eq_int r.0 ipc_success then (pos (field (c.0)), r.2) else (r.0, r.2)
    ]

-- `Version += 1`, `Unk1 += 1` and `Unk2 += 1`, each in a byte.
abbrev pub raise_version : Boot2Counter → Boot2Counter
raise_version c = record c { data0 = (version c + 1) % 2 ^ 8 * 2 ^ 8 + unk1 c }

abbrev pub raise_unk1 : Boot2Counter → Boot2Counter
raise_unk1 c = record c { data0 = version c * 2 ^ 8 + (unk1 c + 1) % 2 ^ 8 }

abbrev pub raise_unk2 : Boot2Counter → Boot2Counter
raise_unk2 c = record c { data1 = (unk2 c + 1) % 2 ^ 8 * 2 ^ 8 + c.data1 % 2 ^ 8 }

-- `UpdateTag += 1`, and then the checksum.
unfoldable pub tagged : Boot2Counter → Boot2Counter
unfolding boot2_checksum
tagged c =
    let tag = (update_tag c + 1) % 2 ^ 32 in
    let raised = record c { data2 = tag / 2 ^ 16; data3 = tag % 2 ^ 16 } in
    record raised { checksum = boot2_checksum raised }

-- `BOOT2_UpdateVersion`, `BOOT2_UpdateUnk1` and `BOOT2_UpdateUnk2`, with the field that they raise.
unfoldable pub update_boot2_field : (Boot2Counter → Boot2Counter) → List ℕ → Miso → Pins → ℤ × Pins
unfolding get_boot2_counter tagged update_boot2_counter
update_boot2_field raise stack miso p =
    let r = get_boot2_counter stack miso p in
    elim (r.1) [
      | none ↦ (r.0, r.2)
      | some c ↦
          if eq_int r.0 ipc_success
          then update_boot2_counter miso (tagged (raise (c.0))) (c.1) r.2
          else (r.0, r.2)
    ]
