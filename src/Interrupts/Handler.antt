-- ===== src/Interrupts/Handler.antt =====
-- `IrqHandler`, `IrqInit` and the switches of the interrupt mask in kernel/source/interrupt/irq.c (kernel
-- build, without MIOS). The drivers' `nand_irq` and `sdhc_irq` are parameters.
use star_struck.Base.{
  ℕ, ◌+◌, List, [], ◌∷◌, ◌==◌, ◌&&◌, not, if◌then◌else◌, Run, ok, fault, ◌>>=◌, has, zero, suc,
}
use star_struck.Threads.State.{ThreadState, null, scheduler_queue, set_state, max_processes}
use star_struck.Threads.Queue.{push_thread}
use star_struck.Interrupts.State.{
  irq_timer, irq_nand, irq_aes, irq_sha1, irq_ohci1, irq_sdhc, irq_gpio1b, irq_gpio1, irq_unkn12,
  irq_reset, irq_ipc, flag_of, has_flag, write32, set32, clear32, Access, hw_armirqflag,
  hw_armirqmask, hw_alarm, hw_gpio1intflag, hw_gpio1bintflag, hw_diflags, nand_cmd, Interrupts,
  access,
}
use star_struck.Interrupts.Events.{enqueue_event_handler}

unfoldable pub irq_init : Interrupts → Interrupts
irq_init i = access (set32 hw_diflags 6) (
    access
      (write32 hw_armirqmask (
        flag_of irq_timer
        + flag_of irq_nand
        + flag_of irq_aes
        + flag_of irq_sha1
        + flag_of irq_unkn12
        + flag_of irq_reset))
      i)

unfoldable pub irq_shutdown : Interrupts → Interrupts
irq_shutdown i = access (write32 hw_armirqflag 0xffffffff) (access (write32 hw_armirqmask 0) i)

unfoldable pub irq_enable : ℕ → Interrupts → Interrupts
irq_enable irq i = access (set32 hw_armirqmask (flag_of irq)) i

unfoldable pub irq_disable : ℕ → Interrupts → Interrupts
irq_disable irq i = access (clear32 hw_armirqmask (flag_of irq)) i

-- The accesses of a case, in order.
abbrev pub accesses_of : List Access → Interrupts → Interrupts
accesses_of [] i = i
accesses_of (a ∷ rest) i = accesses_of rest (access a i)

-- A case of an event that only touches registers.
abbrev pub on_flag : ℕ → ℕ → (Interrupts → Interrupts) → Interrupts → Interrupts
on_flag irq flags act i = if has_flag irq flags then act i else i

-- A case of an event that has a handler.
abbrev pub on_event : ℕ → ℕ → List Access → Interrupts → Run Interrupts
on_event irq flags accesses i =
    if has_flag irq flags then enqueue_event_handler irq (accesses_of accesses i) else ok i

-- The domain access control word 0x55555555, which opens all domains, is no process's.
abbrev pub all_domains : ℕ
all_domains = max_processes

-- The running thread is ready, and all domains are open.
unfoldable pub enter : Interrupts → Run Interrupts
enter i =
    let s = i.system in
    let k = s.kernel in
    if k.current == null then fault else (do
      k1 ← push_thread scheduler_queue k.current (set_state k k.current ThreadState.ready)
      ok (record i { system = record s { kernel = record k1 { domain_access = all_domains } } }))

-- The flags that no case names: `flags & ~IRQF_ALL`.
abbrev pub events_of_all : List ℕ
events_of_all =
    irq_timer ∷ irq_nand ∷ irq_gpio1b ∷ irq_gpio1 ∷ irq_reset ∷ irq_ipc ∷ irq_aes ∷ irq_sha1
    ∷ irq_sdhc ∷ []

unfoldable pub unknown_flags : ℕ → ℕ → ℕ
unknown_flags zero flags = 0
unknown_flags (suc irq) flags =
    let rest = unknown_flags irq flags in
    if has_flag irq flags && not (has irq events_of_all) then rest + flag_of irq else rest

-- `flags` is what `HW_ARMIRQFLAG & HW_ARMIRQMASK` reads.
unfoldable pub irq_handler :
    (Interrupts → Interrupts) → (Interrupts → Interrupts) → ℕ → Interrupts → Run Interrupts
unfolding enter unknown_flags
irq_handler nand_irq sdhc_irq flags i0 = do
  i1 ← enter i0
  i2 ←
      on_event irq_timer flags (write32 hw_alarm 0 ∷ write32 hw_armirqflag (flag_of irq_timer) ∷ [])
        i1
  i3 ←
      on_event irq_ohci1 flags
        (clear32 hw_armirqmask (flag_of irq_ohci1) ∷ write32 hw_armirqflag (flag_of irq_ohci1) ∷ [])
        i2
  i4 ← ok (
      on_flag irq_gpio1 flags
        (accesses_of
          (write32 hw_gpio1intflag 0xFFFFFF ∷ write32 hw_armirqflag (flag_of irq_gpio1) ∷ []))
        i3)
  i5 ← ok (
      on_flag irq_nand flags
        (λ i. nand_irq (
          accesses_of (write32 nand_cmd 0x7fffffff ∷ write32 hw_armirqflag (flag_of irq_nand) ∷ [])
            i))
        i4)
  i6 ← ok (
      on_flag irq_gpio1b flags
        (accesses_of
          (write32 hw_gpio1bintflag 0xFFFFFF ∷ write32 hw_armirqflag (flag_of irq_gpio1b) ∷ []))
        i5)
  i7 ← ok (on_flag irq_reset flags (access (write32 hw_armirqflag (flag_of irq_reset))) i6)
  i8 ←
      on_event irq_ipc flags
        (clear32 hw_armirqmask (flag_of irq_ipc) ∷ write32 hw_armirqflag (flag_of irq_ipc) ∷ []) i7
  i9 ← on_event irq_sha1 flags (write32 hw_armirqflag (flag_of irq_sha1) ∷ []) i8
  i10 ← on_event irq_aes flags (write32 hw_armirqflag (flag_of irq_aes) ∷ []) i9
  i11 ← ok (
      on_flag irq_sdhc flags
        (λ i. sdhc_irq (
          accesses_of
            (clear32 hw_armirqmask (flag_of irq_sdhc)
              ∷ write32 hw_armirqflag (flag_of irq_sdhc)
              ∷ [])
            i))
        i10)
  (let unknown = unknown_flags 32 flags in
      ok (if unknown == 0 then i11 else access (write32 hw_armirqflag unknown) i11))
