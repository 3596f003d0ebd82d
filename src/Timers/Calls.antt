-- ===== src/Timers/Calls.antt =====
-- The timer calls of kernel/source/scheduler/timer.c. `GetCoreClock` is a parameter, and so are the
-- owners of the message queues and the process of the running thread.
use star_struck.Base.{
  ℕ, zero, suc, ◌+◌, ◌/◌, ◌%◌, ◌^◌, ◌==◌, ◌||◌, not, Bool, true, false, ltb, leb, if◌then◌else◌,
  add_u32, ℤ, pos, negsuc, Option, none, some, Run, ok, fault, ◌>>=◌,
}
use star_struck.Timers.State.{
  Clock, TimerInfo, HwTimer, null, current_timer, set_timer, next, interval, set_interval,
  max_timers, timer_at,
}
use star_struck.Timers.Queue.{queue_timer}

abbrev ipc_eacces : ℤ
ipc_eacces = negsuc 0

abbrev ipc_einval : ℤ
ipc_einval = negsuc 3

abbrev ipc_emax : ℤ
ipc_emax = negsuc 4

abbrev max_message_queues : ℕ
max_message_queues = 0x100

-- `delay >> n`
abbrev shift : ℕ → ℕ → ℕ
shift delay n = delay / 2 ^ n

unfoldable pub convert_delay_to_ticks : ℕ → ℕ → ℕ
convert_delay_to_ticks clk delay =
    if clk == 0x51
    then (shift delay 1 + shift delay 3 + shift delay 7) % 2 ^ 32
    else if clk == 0x36
    then (shift delay 2 + shift delay 3 + shift delay 5 + shift delay 6) % 2 ^ 32
    else if clk == 0x6C
    then (shift delay 1 + shift delay 2 + shift delay 4 + shift delay 5) % 2 ^ 32
    else if clk == 0xA2
    then (shift delay 2 + shift delay 6 + delay) % 2 ^ 32
    else (delay + shift delay 1 + shift delay 2 + shift delay 3 + shift delay 6 + shift delay 7)
      % 2 ^ 32

-- What the calls read outside of the timers: the clock, the timer register at its successive reads,
-- the owners of the message queues, and the running thread's process.
pub record Context : Type 0 where
  pub core_clock : ℕ
  pub hw : HwTimer
  pub queue_process : ℕ → ℕ
  pub process : ℕ

abbrev pub Reply : Type 0
Reply = Run (ℤ × Clock)

-- The scan for a free timer: `n` rounds are left from index `i` on.
unfoldable pub find_free_timer : ℕ → ℕ → Clock → Option ℕ
find_free_timer zero i c = none
find_free_timer (suc n) i c =
    let rest = find_free_timer n (i + 1) c in
    if (c.timers (timer_at i)).queue == null then some i else rest

-- The queueing of a timer whose ticks are written.
unfoldable pub armed : Context → ℤ → ℕ → Clock → Reply
armed x code t c = do c1 ← if interval c t == 0 then ok c else queue_timer x.hw t c; ok (code, c1)

-- The free timer `i` is set up.
unfoldable pub set_up : Context → ℕ → ℕ → ℕ → ℕ → ℕ → Clock → Reply
unfolding armed convert_delay_to_ticks
set_up x delay_us period_us m message i c =
    let first = if delay_us == 0 then period_us else delay_us in
    armed x (pos i) (timer_at i) (
      set_timer (timer_at i)
        (record (c.timers (timer_at i)) {
          message = message;
          queue = m + 1;
          interval_in_us = period_us;
          interval_in_ticks = convert_delay_to_ticks x.core_clock first;
          process_id = x.process;
        })
        c)

unfoldable pub create_timer : Context → ℕ → ℕ → ℤ → ℕ → Clock → Reply
unfolding find_free_timer set_up
create_timer x delay_us period_us (negsuc _) message c = ok (ipc_einval, c)
create_timer x delay_us period_us (pos m) message c =
    if ltb max_message_queues m
    then ok (ipc_einval, c)
    else if not (x.queue_process m == x.process)
    then ok (ipc_eacces, c)
    else elim (find_free_timer max_timers 0 c) [
      | none ↦ ok (ipc_emax, c)
      | some i ↦ set_up x delay_us period_us m message i c
    ]

-- A timer that is set or queued is left as it is. A negative id is not tested for: a fault.
unfoldable pub restart_timer : Context → ℤ → ℕ → ℕ → Clock → Reply
unfolding armed convert_delay_to_ticks
restart_timer x (negsuc _) time_us repeat_us c = fault
restart_timer x (pos i) time_us repeat_us c =
    let t = timer_at i in
    let info = c.timers t in
    let first = if time_us == 0 then repeat_us else time_us in
    let set =
      set_timer t
        (record info {
          interval_in_us = repeat_us;
          interval_in_ticks = convert_delay_to_ticks x.core_clock first;
        })
        c in
    if leb max_timers i
    then ok (ipc_einval, c)
    else if not (info.process_id == x.process)
    then ok (ipc_eacces, c)
    else if not (info.interval_in_us == 0)
        || not (info.interval_in_ticks == 0)
        || not (info.next_timer == null)
        || not (info.previous_timer == null)
    then ok (pos 0, c)
    else armed x (pos 0) t set

-- What is written at a timer that is the last one queued. `peek` is `read32(HW_TIMER - d)`.
unfoldable pub recalculate : HwTimer → (ℕ → ℕ) → ℕ → Clock → Clock
recalculate hw peek t c =
    let following = next c t in
    let sum = add_u32 (interval c following) (interval c t) in
    let c1 = record c { previous_timer_value = hw c.reads; reads = c.reads + 1 } in
    let c2 = record c1 { reads = c1.reads + 1 } in
    if next c current_timer == t
    then (if leb sum (peek c.previous_timer_value)
        then set_interval following 0 c1
        else set_interval following (hw c.reads) c2)
    else set_interval following sum (record c { previous_timer_value = sum })

-- The links around the timer.
unfoldable pub unlink : ℕ → Clock → Clock
unlink t c =
    let previous = (c.timers t).previous_timer in
    let c1 = set_timer previous (record (c.timers previous) { next_timer = next c t }) c in
    let following = next c1 t in
    set_timer following (record (c1.timers following) { previous_timer = previous }) c1

abbrev cleared : Bool → TimerInfo → TimerInfo
cleared destroy info =
    if destroy
    then record {
      interval_in_ticks = 0;
      interval_in_us = 0;
      queue = 0;
      message = 0;
      process_id = 0;
      previous_timer = null;
      next_timer = null;
    }
    else record info {
      previous_timer = null;
      next_timer = null;
      interval_in_us = 0;
      interval_in_ticks = 0;
    }

unfoldable pub stop_or_destroy_timer : Context → (ℕ → ℕ) → ℤ → Bool → Clock → Reply
unfolding recalculate unlink
stop_or_destroy_timer x peek (negsuc _) destroy c = fault
stop_or_destroy_timer x peek (pos i) destroy c =
    let t = timer_at i in
    let c1 = if next c t == current_timer then recalculate x.hw peek t c else c in
    let c2 = if next c t == null then c else unlink t c1 in
    if ltb max_timers i
    then ok (ipc_einval, c)
    else if i == max_timers
    then fault
    else if not ((c.timers t).process_id == x.process)
    then ok (ipc_eacces, c)
    else ok (pos 0, set_timer t (cleared destroy (c2.timers t)) c2)

abbrev pub stop_timer : Context → (ℕ → ℕ) → ℤ → Clock → Reply
stop_timer x peek i c = stop_or_destroy_timer x peek i false c

abbrev pub destroy_timer : Context → (ℕ → ℕ) → ℤ → Clock → Reply
destroy_timer x peek i c = stop_or_destroy_timer x peek i true c
