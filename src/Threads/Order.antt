-- ===== src/Threads/Order.antt =====
-- Queues in the order of priority.
use star_struck.Base.{
  ℕ, ◌≡◌, refl, true, false, ℤ, lt_int, List, [], ◌∷◌, arith, inl, inr, Bool-cases,
}
use star_struck.Threads.State.{Kernel}
use star_struck.Threads.Push.{insert}

abbrev pub priority_of : Kernel → ℕ → ℤ
priority_of k t = (k.threads t).priority

-- `a` has at least the priority of `b`.
abbrev pub AtLeast : ℤ → ℤ → Type 0
AtLeast a b = lt_int a b ≡ false

abbrev pub AllBelow : Kernel → ℤ → List ℕ → Type 0
AllBelow k p [] = Unit {0}
AllBelow k p (x ∷ xs) = AtLeast p (priority_of k x) × AllBelow k p xs

-- No thread stands before one of a higher priority.
abbrev pub Ordered : Kernel → List ℕ → Type 0
Ordered k [] = Unit {0}
Ordered k (x ∷ xs) = AllBelow k (priority_of k x) xs × Ordered k xs

pub AtLeast-trans : (a b c : ℤ) → AtLeast a b → AtLeast b c → AtLeast a c
AtLeast-trans a b c h i = ground arith

pub AtLeast-of_lt : (a b : ℤ) → lt_int a b ≡ true → AtLeast b a
AtLeast-of_lt a b h = ground arith

pub AtLeast-refl : (a : ℤ) → AtLeast a a
AtLeast-refl a = ground arith

AllBelow-trans :
    (k : Kernel) (p q : ℤ) (xs : List ℕ) → AtLeast p q → AllBelow k q xs → AllBelow k p xs
AllBelow-trans k p q [] h all = tt
AllBelow-trans k p q (x ∷ xs) h all =
    (AtLeast-trans p q (priority_of k x) h all.0, AllBelow-trans k p q xs h all.1)

AllBelow-insert :
    (k : Kernel) (p q : ℤ) (t : ℕ) (xs : List ℕ)
    → AtLeast p q
    → priority_of k t ≡ q
    → AllBelow k p xs
    → AllBelow k p (insert k q t xs)
unfolding insert
AllBelow-insert k p q t [] h e all = (rw e h, tt)
AllBelow-insert k p q t (x ∷ xs) h e all = elim (Bool-cases (lt_int q (priority_of k x))) [
  | inl less ↦ rw less (all.0, AllBelow-insert k p q t xs h e all.1)
  | inr more ↦ rw more (rw e h, (all.0, all.1))
]

-- Insertion keeps a queue in the order of priority.
pub insert-Ordered :
    (k : Kernel) (t : ℕ) (xs : List ℕ) → Ordered k xs → Ordered k (insert k (priority_of k t) t xs)
unfolding insert
insert-Ordered k t [] h = (tt, tt)
insert-Ordered k t (x ∷ xs) h = elim (Bool-cases (lt_int (priority_of k t) (priority_of k x))) [
  | inl less ↦ rw less (
    AllBelow-insert k (priority_of k x) (priority_of k t) t xs
        (AtLeast-of_lt (priority_of k t) (priority_of k x) less) refl h.0,
    insert-Ordered k t xs h.1,
  )
  | inr more ↦
      rw more ((more, AllBelow-trans k (priority_of k t) (priority_of k x) xs more h.0), (h.0, h.1))
]

-- The same priorities give the same insertion and the same order.
abbrev pub SamePriorities : Kernel → Kernel → Type 0
SamePriorities k g = (t : ℕ) → priority_of g t ≡ priority_of k t

pub insert_cong :
    (k g : Kernel) (p : ℤ) (t : ℕ) (xs : List ℕ)
    → SamePriorities k g
    → insert g p t xs ≡ insert k p t xs
unfolding insert
insert_cong k g p t [] same = refl
insert_cong k g p t (x ∷ xs) same = ground (arith, same x, insert_cong k g p t xs same)

AllBelow-cong :
    (k g : Kernel) (p : ℤ) (xs : List ℕ) → SamePriorities k g → AllBelow k p xs → AllBelow g p xs
AllBelow-cong k g p [] same h = tt
AllBelow-cong k g p (x ∷ xs) same h = (rw (same x) h.0, AllBelow-cong k g p xs same h.1)

pub Ordered-cong : (k g : Kernel) (xs : List ℕ) → SamePriorities k g → Ordered k xs → Ordered g xs
Ordered-cong k g [] same h = tt
Ordered-cong k g (x ∷ xs) same h =
    (rw (same x) (AllBelow-cong k g (priority_of k x) xs same h.0), Ordered-cong k g xs same h.1)
