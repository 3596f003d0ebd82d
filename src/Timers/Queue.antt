-- ===== src/Timers/Queue.antt =====
-- `QueueTimer` and `SetTimerAlarm` of kernel/source/scheduler/timer.c.
use star_struck.Base.{
  ℕ, zero, suc, ◌+◌, ◌-◌, ◌==◌, ◌||◌, ltb, leb, if◌then◌else◌, sub_u32, add_u32, Run, ok, hang,
  ◌>>=◌,
}
use star_struck.Timers.State.{
  Clock, HwTimer, null, current_timer, set_timer, next, interval, set_interval, max_timers,
}

unfoldable pub set_timer_alarm : HwTimer → ℕ → Clock → Clock
set_timer_alarm hw ticks c =
    let ticks' = if ltb ticks 2 then 2 else ticks in
    record c {
      alarm = add_u32 (hw c.reads) ticks';
      previous_timer_value = hw (c.reads + 1);
      reads = c.reads + 2;
    }

-- The passed time is taken off the first timer, not below 0.
unfoldable pub correct_first : ℕ → Clock → Clock
correct_first passed c =
    let first = next c current_timer in
    if first == current_timer
    then c
    else set_interval first (if ltb passed (interval c first) then interval c first - passed else 0)
        c

-- The loop: the timer before which to queue, and the ticks that are left then.
unfoldable pub find_place : ℕ → ℕ → ℕ → Clock → Run (ℕ × ℕ)
find_place zero at ticks c = hang
find_place (suc fuel) at ticks c =
    let rest = find_place fuel (next c at) (ticks - interval c at) c in
    if (at == current_timer) || leb ticks (interval c at) then ok (at, ticks) else rest

-- The four links.
unfoldable pub link_before : ℕ → ℕ → Clock → Clock
link_before t at c =
    let previous = (c.timers at).previous_timer in
    let c1 = set_timer t (record (c.timers t) { previous_timer = previous; next_timer = at }) c in
    let c2 = set_timer at (record (c1.timers at) { previous_timer = t }) c1 in
    set_timer previous (record (c2.timers previous) { next_timer = t }) c2

-- From the end of the loop on.
unfoldable pub place : HwTimer → ℕ → ℕ → ℕ → Clock → Clock
unfolding link_before set_timer_alarm
place hw t at ticks c =
    let c1 = set_interval t ticks c in
    let c2 = if at == current_timer then c1 else set_interval at (interval c1 at - ticks) c1 in
    let c3 = link_before t at c2 in
    if (c3.timers t).previous_timer == current_timer
    then set_timer_alarm hw (interval c3 t) c3
    else c3

-- The walk passes at most all timers.
abbrev pub walk_fuel : ℕ
walk_fuel = max_timers + 2

unfoldable pub queue_timer : HwTimer → ℕ → Clock → Run Clock
unfolding correct_first find_place place
queue_timer hw t c =
    let passed = sub_u32 (hw c.reads) c.previous_timer_value in
    let c1 = record c { previous_timer_value = hw (c.reads + 1); reads = c.reads + 2 } in
    let ticks = interval c t in
    let c2 = correct_first passed c1 in
    if t == null then ok c else (do
      (at, left) ← find_place walk_fuel (next c current_timer) ticks c2
      ok (place hw t at left c2))
