-- ===== src/Timers/Deadlines.antt =====
-- Where `QueueTimer` of kernel/source/scheduler/timer.c queues a timer.
use star_struck.Base.{
  ℕ, zero, suc, ◌+◌, ◌-◌, ◌==◌, ◌≤◌, ◌<◌, ◌≡◌, ◌≢◌, ◌⊎◌, inl, inr, refl, ap, true, false,
  Bool-cases, List, [], ◌∷◌, ◌++◌, leb, length, ok, arith,
}
use star_struck.Timers.State.{Clock, next, interval, current_timer}
use star_struck.Timers.Queue.{find_place}

-- The timers `ts` are queued from `at` on, and `CurrentTimer` comes after them.
unfoldable pub Queued : Clock → ℕ → List ℕ → Type 0
Queued c at [] = at ≡ current_timer
Queued c at (t ∷ ts) = (at ≡ t) × (t ≢ current_timer) × Queued c (next c t) ts

-- The ticks until the last of the timers is due.
unfoldable pub due : Clock → List ℕ → ℕ
due c [] = 0
due c (t ∷ ts) = interval c t + due c ts

-- The place where the loop stops: `before` are the timers that are due earlier.
pub record Place (c : Clock) (at ticks : ℕ) (ts before after : List ℕ) (place left : ℕ)
    : Type 0 where
  pub whole : ts ≡ before ++ after
  pub rest : Queued c place after
  pub left_ticks : due c before + left ≡ ticks
  pub earlier : (before ≡ []) ⊎ (due c before < ticks)
  pub not_later : (after ≡ []) ⊎ (left ≤ interval c place)

-- Where fewer timers are queued than there are rounds, the loop ends, and finds the place at which
-- the deadlines are in order: those before are earlier than the new one, and the next is not.
pub find_place-Place :
    (fuel at ticks : ℕ) (c : Clock) (ts : List ℕ)
    → Queued c at ts
    → length ts < fuel
    → (before : List ℕ) × (after : List ℕ) × (place : ℕ) × (left : ℕ) × (find_place fuel at ticks c
        ≡ ok (place, left))
      × Place c at ticks ts before after place left
unfolding find_place Queued due
find_place-Place zero at ticks c ts q lt = absurd (omega (arith, lt))
find_place-Place (suc fuel) at ticks c [] q lt = (
  [],
  [],
  at,
  ticks,
  rw (ap (λ (a : ℕ). a == current_timer) q) refl,
  record {
    whole = refl;
    rest = q;
    left_ticks = omega arith;
    earlier = inl refl;
    not_later = inl refl;
  },
)
find_place-Place (suc fuel) at ticks c (t ∷ ts) q lt =
    elim (Bool-cases (leb ticks (interval c t))) [
      | inl here ↦ (
        [],
        t ∷ ts,
        at,
        ticks,
        rw (q.0, here) (ground arith),
        record {
          whole = refl;
          rest = q;
          left_ticks = omega arith;
          earlier = inl refl;
          not_later = inr (rw (q.0) (leb→le ticks (interval c t) here));
        },
      )
      | inr later ↦
          let s =
            find_place-Place fuel (next c t) (ticks - interval c t) c ts q.2 (omega (arith, lt)) in
          let p = s.5 in
          let more = not_leb ticks (interval c t) later in
          (
            t ∷ s.0,
            s.1,
            s.2,
            s.3,
            rw (q.0, later, not_current t q.1) s.4,
            record {
              whole = ap (λ xs. t ∷ xs) p.whole;
              rest = p.rest;
              left_ticks = omega (arith, p.left_ticks, more);
              earlier = inr (elim p.earlier [
                | inl none_before ↦ rw none_before (omega (arith, more))
                | inr before ↦ omega (arith, before, more)
              ]);
              not_later = p.not_later;
            },
          )
    ]
  where
    leb→le : (a b : ℕ) → leb a b ≡ true → a ≤ b
    leb→le a b h = ground arith

    not_leb : (a b : ℕ) → leb a b ≡ false → b < a
    not_leb a b h = ground arith

    not_current : (t : ℕ) → t ≢ current_timer → (t == current_timer) ≡ false
    not_current t h = ground arith
