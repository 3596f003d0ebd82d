-- ===== src/Seeprom/Pins.antt =====
-- The wires of kernel/source/crypto/seeprom.c: each bit is a rising clock edge.
use star_struck.Base.{ℕ, ◌/◌, ◌%◌, ◌^◌, ◌==◌, Bool, true, false, List, ◌∷◌, if◌then◌else◌}

-- What the chip sees at a rising edge.
pub record Edge : Type 0 where
  pub chip_select : Bool
  pub mosi : Bool

-- The output register's bits, and all rising edges, the newest first.
pub record Pins : Type 0 where
  pub clock : Bool
  pub select : Bool
  pub mosi : Bool
  pub edges : List Edge

abbrev pub chip_select_high : Pins → Pins
chip_select_high p = record p { select = true }

abbrev pub chip_select_low : Pins → Pins
chip_select_low p = record p { select = false }

abbrev pub clock_disable : Pins → Pins
clock_disable p = record p { clock = false }

-- The clock line goes up: an edge, if it was down.
abbrev pub clock_enable : Pins → Pins
clock_enable p =
    let e : Edge = record { chip_select = p.select; mosi = p.mosi } in
    record p { clock = true; edges = if p.clock then p.edges else e ∷ p.edges }

abbrev pub set_mosi : Bool → Pins → Pins
set_mosi b p = record p { mosi = b }

-- `(value >> n) & 1`
abbrev pub bit : ℕ → ℕ → Bool
bit n value = ((value / 2 ^ n) % 2) == 1

abbrev pub send_bit : Bool → Pins → Pins
send_bit b p = clock_enable (set_mosi b (chip_select_high (clock_disable p)))

abbrev pub receive_edge : Pins → Pins
receive_edge p = clock_enable (chip_select_high (clock_disable p))

abbrev pub send_zero : Pins → Pins
send_zero p = clock_enable (set_mosi false (chip_select_low (clock_disable p)))
