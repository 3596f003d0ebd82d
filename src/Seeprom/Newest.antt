-- ===== src/Seeprom/Newest.antt =====
-- The choice that `NAND_GetCounter` of kernel/source/crypto/seeprom.c makes among the counters.
use star_struck.Base.{
  ℕ, ◌+◌, ◌<◌, ◌≤◌, ◌≡◌, refl, sym, ◌∙◌, Bool, true, Bool-cases, ltb, leb, ◌==◌, ◌⊎◌, inl, inr,
  List, [], ◌∷◌, Option, none, some, arith,
}
use mathlib.Core.Path.{subst}
use mathlib.Core.List.{Memᴰ}
use mathlib.Core.List.Memᴰ.{head, tail}
use star_struck.Seeprom.Counters.{
  NandCounter, nand_gen, compute_counter_checksum, Choice, no_choice, raise_highest, lower_lowest,
  consider, choose,
}

abbrev pub is_valid : NandCounter → Bool
is_valid c = compute_counter_checksum c == c.checksum

-- No valid counter has a generation above `v`.
abbrev pub Below : ℕ → List NandCounter → Type 0
Below v [] = Unit {0}
Below v (c ∷ cs) = (is_valid c ≡ true → nand_gen c ≤ v) × Below v cs

-- Every valid counter has a generation under `v`.
abbrev pub Under : ℕ → List NandCounter → Type 0
Under v [] = Unit {0}
Under v (c ∷ cs) = (is_valid c ≡ true → nand_gen c < v) × Under v cs

-- What a round of the loop does to the highest value: nothing for a counter that is not valid or that
-- is lower, or else it takes the counter.
abbrev pub Considered : NandCounter → Choice → Choice → Type 0
Considered c s r =
    ((is_valid c ≡ true → nand_gen c < s.highest_value)
      × (r.ptr_out ≡ s.ptr_out)
      × (r.highest_value ≡ s.highest_value))
    ⊎ ((is_valid c ≡ true)
        × (s.highest_value ≤ nand_gen c)
        × (r.ptr_out ≡ some c)
        × (r.highest_value ≡ nand_gen c))

lower_lowest-keeps :
    (current : ℕ) (c : NandCounter) (s : Choice)
    → ((lower_lowest current c s).ptr_out ≡ s.ptr_out)
      × ((lower_lowest current c s).highest_value ≡ s.highest_value)
unfolding lower_lowest
lower_lowest-keeps current c s = elim (Bool-cases (ltb (nand_gen c) s.lowest_value)) [
  | inl e ↦ rw e (refl, refl)
  | inr e ↦ rw e (refl, refl)
]

pub consider-Considered :
    (current : ℕ) (c : NandCounter) (s : Choice) → Considered c s (consider current c s)
unfolding consider raise_highest
consider-Considered current c s = elim (Bool-cases (is_valid c)) [
  | inr invalid ↦ inl (λ v. absurd (ground (arith, invalid, v)), rw invalid refl, rw invalid refl)
  | inl valid ↦
      let keeps = lower_lowest-keeps current c (raise_highest c s) in
      elim (Bool-cases (leb s.highest_value (nand_gen c))) [
        | inl e ↦
            inr
              (valid, ground arith, rw valid (keeps.0 ∙ rw e refl), rw valid (keeps.1 ∙ rw e refl))
        | inr e ↦
            inl (λ v. ground arith, rw valid (keeps.0 ∙ rw e refl), rw valid (keeps.1 ∙ rw e refl))
      ]
]

-- The loop on `cs` from `s` ends with `r`: no valid counter has a generation above the highest value,
-- and the pointer is to a valid counter of that generation, or is what it was and all are lower.
pub record Chosen (cs : List NandCounter) (s r : Choice) : Type 0 where
  pub grows : s.highest_value ≤ r.highest_value
  pub below : Below r.highest_value cs
  pub source :
      ((r.ptr_out ≡ s.ptr_out) × (r.highest_value ≡ s.highest_value) × Under s.highest_value cs)
      ⊎ ((c : NandCounter) × (r.ptr_out ≡ some c)
          × Memᴰ c cs
          × (is_valid c ≡ true)
          × (r.highest_value ≡ nand_gen c))

Chosen-cons :
    (c : NandCounter) (cs : List NandCounter) (s t r : Choice)
    → Considered c s t
    → Chosen cs t r
    → Chosen (c ∷ cs) s r
Chosen-cons c cs s t r (inl (low, ptr, high)) h = record {
  grows = omega (arith, high, h.grows);
  below = ((λ v. omega (arith, low v, high, h.grows)), h.below);
  source = elim (h.source) [
    | inl (p, e, u) ↦ inl (p ∙ ptr, e ∙ high, (low, subst (λ v. Under v cs) high u))
    | inr (d, p, m, v, e) ↦ inr (d, p, tail m, v, e)
  ];
}
Chosen-cons c cs s t r (inr (valid, up, ptr, high)) h = record {
  grows = omega (arith, up, high, h.grows);
  below = ((λ v. omega (arith, high, h.grows)), h.below);
  source = elim (h.source) [
    | inl (p, e, u) ↦ inr (c, p ∙ ptr, head refl, valid, e ∙ high)
    | inr (d, p, m, v, e) ↦ inr (d, p, tail m, v, e)
  ];
}

pub choose-Chosen :
    (current : ℕ) (cs : List NandCounter) (s : Choice) → Chosen cs s (choose current cs s)
unfolding choose
choose-Chosen current [] s = record {
  grows = omega arith;
  below = tt;
  source = inl (refl, refl, tt);
}
choose-Chosen current (c ∷ cs) s =
    let t = consider current c s in
    Chosen-cons c cs s t (choose (current + 1) cs t) (consider-Considered current c s)
      (choose-Chosen (current + 1) cs t)

-- What the pointer is to, among the counters `cs`.
abbrev pub IsNewest : List NandCounter → Option NandCounter → Type 0
IsNewest cs none = Under 0 cs
IsNewest cs (some c) = Memᴰ c cs × (is_valid c ≡ true) × Below (nand_gen c) cs

-- The loop of `NAND_GetCounter` points to a counter whose checksum is right and whose generation is
-- the highest of all such counters, and to none only if no counter has a right checksum.
pub choose-IsNewest : (cs : List NandCounter) → IsNewest cs (choose 0 cs no_choice).ptr_out
choose-IsNewest cs =
    let h = choose-Chosen 0 cs no_choice in
    elim (h.source) [
      | inl (p, e, u) ↦ subst (λ o. IsNewest cs o) (sym p) u
      | inr (c, p, m, v, e) ↦
          subst (λ o. IsNewest cs o) (sym p) (m, v, subst (λ g. Below g cs) e h.below)
    ]
