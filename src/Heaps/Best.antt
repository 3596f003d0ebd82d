-- ===== src/Heaps/Best.antt =====
-- The search of `MallocateOnHeap` in kernel/source/memory/heaps.c for the best fitting block.
use star_struck.Base.{
  ℕ, ◌/◌, ◌%◌, ◌^◌, ◌<◌, ◌≤◌, ◌≡◌, ◌⊎◌, inl, inr, refl, ==_refl, sym, ◌∙◌, ap, Bool, true, false,
  Option, none, some, ltb, leb, ◌==◌, ◌&&◌, ◌||◌, List, [], ◌∷◌, arith, add_u32, bit_and_low,
}
use star_struck.Heaps.State.{null, offset_of}
use star_struck.Heaps.Chain.{Span}

-- Blocks stand at multiples of 32.
abbrev pub Aligned : List Span → Type 0
Aligned [] = Unit {0}
Aligned (x ∷ xs) = (x.0 % 0x20 ≡ 0) × Aligned xs

pub offset_of-aligned : (b : ℕ) → b % 0x20 ≡ 0 → b < 2 ^ 32 → offset_of 0x20 b ≡ 0x10
unfolding offset_of
offset_of-aligned b h lt =
    let e = bit_and_low 5 (add_u32 b 0x10) (b / 32) 0x10 (omega (arith, h, lt)) (omega arith) in
    rw e refl

-- A block does not fit, or is no smaller than the one that was found.
abbrev pub is_worse : ℕ → Option Span → Span → Bool
is_worse need none y = ltb y.1 need
is_worse need (some x) y = ltb y.1 need || leb x.1 y.1

abbrev pub all_worse : ℕ → Option Span → List Span → Bool
all_worse need o [] = true
all_worse need o (y ∷ ys) = is_worse need o y && all_worse need o ys

abbrev pub listed : Span → List Span → Bool
listed x [] = false
listed x (y ∷ ys) = ((x.0 == y.0) && (x.1 == y.1)) || listed x ys

abbrev pub address : Option Span → ℕ
address none = null
address (some x) = x.0

-- The block comes from the list, has room, and no block of the list fits better.
abbrev pub IsBest : ℕ → List Span → Option Span → Type 0
IsBest need xs none = all_worse need none xs ≡ true
IsBest need xs (some x) = (listed x xs ≡ true) × (need ≤ x.1) × (all_worse need (some x) xs ≡ true)

-- The block at `x` replaces the one that was found, or does not.
unfoldable pub better : ℕ → Option Span → Span → Bool
better need none x = leb need x.1 && true
better need (some y) x = leb need x.1 && ltb x.1 y.1

unfoldable pub From : Option Span → Option Span → List Span → Type 0
From o none xs = o ≡ none
From o (some x) xs = (o ≡ some x) ⊎ (listed x xs ≡ true)

pub listed-head : (x b : Span) (xs : List Span) → x ≡ b → listed b (x ∷ xs) ≡ true
listed-head x b xs e = rw (e, ==_refl b.0, ==_refl b.1) refl

listed-tail : (y x : Span) (xs : List Span) → listed y xs ≡ true → listed y (x ∷ xs) ≡ true
listed-tail y x xs h = ground arith

or_first : Span → Option Span → Span
or_first d none = d
or_first d (some x) = x

pub From-cons :
    (o o1 best : Option Span) (x : Span) (xs : List Span)
    → (o1 ≡ o) ⊎ (o1 ≡ some x)
    → From o1 best xs
    → From o best (x ∷ xs)
unfolding From or_first
From-cons o o1 none x xs (inl e) h = sym e ∙ h
From-cons o o1 none x xs (inr e) h = cc
From-cons o o1 (some b) x xs (inl e) (inl f) = inl (sym e ∙ f)
From-cons o o1 (some b) x xs (inr e) (inl f) =
    inr (listed-head x b xs (ap (or_first x) (sym e ∙ f)))
From-cons o o1 (some b) x xs e (inr l) = inr (listed-tail b x xs l)

-- A block that fits better leaves all others that were worse so.
pub better-worse :
    (need : ℕ) (o : Option Span) (x y : Span)
    → better need o x ≡ true
    → is_worse need o y ≡ true
    → is_worse need (some x) y ≡ true
unfolding better
better-worse need none x y b h = ground arith
better-worse need (some z) x y b h = ground arith

pub not_better-worse :
    (need : ℕ) (o : Option Span) (x : Span) → better need o x ≡ false → is_worse need o x ≡ true
unfolding better
not_better-worse need none x b = ground arith
not_better-worse need (some z) x b = ground arith

pub better_room : (need : ℕ) (o : Option Span) (x : Span) → better need o x ≡ true → need ≤ x.1
unfolding better
better_room need none x b = ground arith
better_room need (some z) x b = ground arith

pub exact_worse :
    (need : ℕ) (x : Span) (ys : List Span) → x.1 ≡ need → all_worse need (some x) ys ≡ true
exact_worse need x [] e = refl
exact_worse need x (y ∷ ys) e = ground (arith, exact_worse need x ys e)
