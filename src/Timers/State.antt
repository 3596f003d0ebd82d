-- ===== src/Timers/State.antt =====
-- The data of kernel/source/scheduler/timer.h and the globals of timer.c (kernel build, without MIOS).
use star_struck.Base.{ℕ, ◌+◌, update}

abbrev pub max_timers : ℕ
max_timers = 0x100

-- A pointer to a timer: `CurrentTimer`, which never changes, is `&initialTimer`.
abbrev pub null : ℕ
null = 0

abbrev pub current_timer : ℕ
current_timer = 1

abbrev pub timer_at : ℕ → ℕ
timer_at i = i + 2

-- `queue` is 0 or the address of a message queue, `&MessageQueues[m]` being m + 1.
pub record TimerInfo : Type 0 where
  pub interval_in_ticks : ℕ
  pub interval_in_us : ℕ
  pub queue : ℕ
  pub message : ℕ
  pub process_id : ℕ
  pub previous_timer : ℕ
  pub next_timer : ℕ

-- `reads` counts the reads of HW_TIMER so far, and `alarm` is HW_ALARM.
pub record Clock : Type 0 where
  pub timers : ℕ → TimerInfo
  pub previous_timer_value : ℕ
  pub reads : ℕ
  pub alarm : ℕ

abbrev pub set_timer : ℕ → TimerInfo → Clock → Clock
set_timer t info c = record c { timers = update c.timers t info }

abbrev pub next : Clock → ℕ → ℕ
next c t = (c.timers t).next_timer

abbrev pub interval : Clock → ℕ → ℕ
interval c t = (c.timers t).interval_in_ticks

abbrev pub set_interval : ℕ → ℕ → Clock → Clock
set_interval t ticks c = set_timer t (record (c.timers t) { interval_in_ticks = ticks }) c

-- `HW_TIMER` at its successive reads is a parameter.
abbrev pub HwTimer : Type 0
HwTimer = ℕ → ℕ
