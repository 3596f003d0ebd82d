-- ===== src/Timers/Tests.antt =====
-- Runs of the theorems on kernel/source/scheduler/timer.c on two timers.
use star_struck.Base.{ℕ, ◌==◌, ◌≡◌, refl, List, [], ◌∷◌, if◌then◌else◌, arith, ok}
use star_struck.Timers.State.{Clock, TimerInfo}
use star_struck.Timers.Queue.{find_place}
use star_struck.Timers.Deadlines.{Queued, Place, find_place-Place}

abbrev timer : ℕ → ℕ → ℕ → TimerInfo
timer ticks previous following = record {
  interval_in_ticks = ticks;
  interval_in_us = 0;
  queue = 1;
  message = 0;
  process_id = 0;
  previous_timer = previous;
  next_timer = following;
}

-- Timer 2 is due in 10 ticks, and timer 3 in 30.
abbrev clock : Clock
clock = record {
  timers = λ t. if t == 2 then timer 10 1 3 else if t == 3 then timer 20 2 1 else timer 0 3 2;
  previous_timer_value = 0;
  reads = 0;
  alarm = 0;
}

find_place-Place_example :
    (before : List ℕ) × (after : List ℕ) × (place : ℕ) × (left : ℕ) × (find_place 5 2 25 clock
      ≡ ok (place, left))
    × Place clock 2 25 (2 ∷ 3 ∷ []) before after place left
unfolding Queued
find_place-Place_example =
    find_place-Place 5 2 25 clock (2 ∷ 3 ∷ []) (refl, omega arith, (refl, omega arith, refl))
      (omega arith)
