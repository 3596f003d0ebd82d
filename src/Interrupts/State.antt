-- ===== src/Interrupts/State.antt =====
-- The data of kernel/source/interrupt/irq.h and irq.c, and the events of core/include/ios/irq.h.
use star_struck.Base.{ℕ, ◌/◌, ◌%◌, ◌^◌, Bool, ◌==◌, Option, List, ◌∷◌, update}
use star_struck.Messages.State.{System}

abbrev pub max_devices : ℕ
max_devices = 32

abbrev pub irq_timer : ℕ
irq_timer = 0

abbrev pub irq_nand : ℕ
irq_nand = 1

abbrev pub irq_aes : ℕ
irq_aes = 2

abbrev pub irq_sha1 : ℕ
irq_sha1 = 3

abbrev pub irq_ehci : ℕ
irq_ehci = 4

abbrev pub irq_ohci0 : ℕ
irq_ohci0 = 5

abbrev pub irq_ohci1 : ℕ
irq_ohci1 = 6

abbrev pub irq_sdhc : ℕ
irq_sdhc = 7

abbrev pub irq_wifi : ℕ
irq_wifi = 8

abbrev pub irq_gpio1b : ℕ
irq_gpio1b = 10

abbrev pub irq_gpio1 : ℕ
irq_gpio1 = 11

abbrev pub irq_unkn12 : ℕ
irq_unkn12 = 12

abbrev pub irq_reset : ℕ
irq_reset = 17

abbrev pub irq_di : ℕ
irq_di = 18

abbrev pub irq_ipc : ℕ
irq_ipc = 31

-- `1 << irq`
abbrev pub flag_of : ℕ → ℕ
flag_of irq = 2 ^ irq % 2 ^ 32

-- `flags & (1 << irq)`
abbrev pub has_flag : ℕ → ℕ → Bool
has_flag irq flags = ((flags / 2 ^ irq) % 2) == 1

-- The registers that the interrupt code names.
pub data Register : Type 0 where
  hw_armirqflag hw_armirqmask hw_alarm hw_gpio1intflag hw_gpio1bintflag hw_diflags nand_cmd :
      Register

-- An access to a register: `write32`, `set32` or `clear32`.
pub data Access : Type 0 where
  write32 : Register → ℕ → Access
  set32 : Register → ℕ → Access
  clear32 : Register → ℕ → Access

-- A message queue is an index, and `Queue` is NULL for none.
pub record EventHandler : Type 0 where
  pub queue : Option ℕ
  pub message : ℕ
  pub handler_process : ℕ

-- The handlers, the system that they post to, and the register accesses, the last first.
pub record Interrupts : Type 0 where
  pub handlers : ℕ → EventHandler
  pub system : System
  pub accesses : List Access

abbrev pub access : Access → Interrupts → Interrupts
access a i = record i { accesses = a ∷ i.accesses }

abbrev pub set_handler : ℕ → EventHandler → Interrupts → Interrupts
set_handler device e i = record i { handlers = update i.handlers device e }
