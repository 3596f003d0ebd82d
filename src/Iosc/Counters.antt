-- ===== src/Iosc/Counters.antt =====
-- The counters of kernel/source/crypto/iosc.c: those of the serial EEPROM where the one-time-programmable
-- memory is set (the parameter `otp_is_set`), and variables of the kernel where it is not. The input of
-- the EEPROM, `miso`, and the words behind the counters on the stack, `stack`, are parameters.
use star_struck.Base.{ℕ, Bool, not, List, ℤ, pos, negsuc, eq_int, lt_int, add_u32, if◌then◌else◌}
use star_struck.Seeprom.Pins.{Pins}
use star_struck.Seeprom.Transfer.{Miso}
use star_struck.Seeprom.Seed.{to_s32, get_prng_seed, update_prng_seed}
use star_struck.Seeprom.Counters.{get_gen, update_gen}
use star_struck.Seeprom.Boot2.{
  Boot2Counter, version, unk1, unk2, raise_version, raise_unk1, raise_unk2, get_boot2_field,
  update_boot2_field,
}

-- The variables, of 32 bits, and the wires of the EEPROM.
pub record Counters : Type 0 where
  pub dummy_version : ℕ
  pub dummy_unk1 : ℕ
  pub dummy_unk2 : ℕ
  pub dummy_gen : ℕ
  pub dummy_prng_seed : ℕ
  pub pins : Pins

-- What the functions do not change.
pub record Board : Type 0 where
  pub otp_is_set : Bool
  pub miso : Miso
  pub stack : List ℕ

abbrev pub Getter : Type 0
Getter = Board → Counters → ℤ × Counters

abbrev with_pins : ℤ × Pins → Counters → ℤ × Counters
with_pins r c = (r.0, record c { pins = r.1 })

-- A variable, or what is read from the EEPROM.
abbrev getter : (Counters → ℕ) → (Board → Pins → ℤ × Pins) → Getter
getter dummy read b c =
    let r = read b c.pins in if b.otp_is_set then with_pins r c else (to_s32 (dummy c), c)

unfoldable pub boot2_get_version : Getter
boot2_get_version = getter (λ c. c.dummy_version) (λ b p. get_boot2_field version b.stack b.miso p)

unfoldable pub boot2_get_unk1 : Getter
boot2_get_unk1 = getter (λ c. c.dummy_unk1) (λ b p. get_boot2_field unk1 b.stack b.miso p)

-- The variable is that of the first unknown counter, in the source too.
unfoldable pub boot2_get_unk2 : Getter
boot2_get_unk2 = getter (λ c. c.dummy_unk1) (λ b p. get_boot2_field unk2 b.stack b.miso p)

unfoldable pub nand_get_gen : Getter
nand_get_gen = getter (λ c. c.dummy_gen) (λ b p. get_gen b.miso p)

unfoldable pub seeprom_get_prng_seed : Getter
seeprom_get_prng_seed = getter (λ c. c.dummy_prng_seed) (λ b p. get_prng_seed b.miso p)

-- An update of the EEPROM, where `room` has the code that was read before.
abbrev raise_where : (ℤ → Bool) → ℤ × Pins → (Pins → ℤ × Pins) → Counters → ℤ × Counters
raise_where room got write c =
    let written = write got.1 in
    if room got.0 then with_pins written c else (negsuc 0, record c { pins = got.1 })

-- `x + 1 < 0x100`
abbrev below_byte : ℤ → Bool
below_byte x = lt_int x (pos 0xFF)

-- `x != -2`
abbrev not_minus_two : ℤ → Bool
not_minus_two x = not (eq_int x (negsuc 1))

abbrev boot2_update :
    (Boot2Counter → ℕ) → (Boot2Counter → Boot2Counter) → (Counters → Counters) → Getter
boot2_update field raise dummy b c =
    let r =
      raise_where below_byte (get_boot2_field field b.stack b.miso c.pins)
        (update_boot2_field raise b.stack b.miso) c in
    if b.otp_is_set then r else (pos 0, dummy c)

unfoldable pub boot2_update_version : Getter
boot2_update_version =
    boot2_update version raise_version (λ c. record c { dummy_version = add_u32 c.dummy_version 1 })

unfoldable pub boot2_update_unk1 : Getter
boot2_update_unk1 =
    boot2_update unk1 raise_unk1 (λ c. record c { dummy_unk1 = add_u32 c.dummy_unk1 1 })

unfoldable pub boot2_update_unk2 : Getter
boot2_update_unk2 =
    boot2_update unk2 raise_unk2 (λ c. record c { dummy_unk2 = add_u32 c.dummy_unk2 1 })

unfoldable pub nand_update_gen : Getter
nand_update_gen b c =
    let r = raise_where not_minus_two (get_gen b.miso c.pins) (update_gen b.miso) c in
    if b.otp_is_set then r else (pos 0, record c { dummy_gen = add_u32 c.dummy_gen 1 })

unfoldable pub seeprom_update_prng_seed : Getter
seeprom_update_prng_seed b c =
    let r = update_prng_seed b.miso c.pins in
    if b.otp_is_set
    then with_pins r c
    else (pos 0, record c { dummy_prng_seed = add_u32 c.dummy_prng_seed 1 })
