-- ===== src/Seeprom/Index.antt =====
-- The index that `NAND_GetCounter` of kernel/source/crypto/seeprom.c gives for the next write.
use star_struck.Base.{
  ℕ, zero, suc, ◌+◌, ◌-◌, ◌^◌, ◌<◌, ◌≤◌, ◌≡◌, refl, ◌∙◌, Bool-cases, ltb, leb, ◌⊎◌, inl, inr, List,
  [], ◌∷◌, length, some, arith,
}
use star_struck.Seeprom.Counters.{
  NandCounter, nand_gen, Choice, raise_highest, lower_lowest, consider, choose, no_choice,
}
use star_struck.Seeprom.Newest.{is_valid}

-- The counters with the one at place `i` written.
abbrev pub replace : ℕ → NandCounter → List NandCounter → List NandCounter
replace i n [] = []
replace zero n (c ∷ cs) = n ∷ cs
replace (suc i) n (c ∷ cs) = c ∷ replace i n cs

-- A round of the loop takes the current index, or leaves the index for a valid counter that is not
-- lower than the lowest.
Indexed : ℕ → NandCounter → Choice → Choice → Type 0
Indexed current c s t =
    (t.index ≡ some current)
    ⊎ ((t.index ≡ s.index) × (t.lowest_value ≡ s.lowest_value) × (s.lowest_value ≤ nand_gen c))

raise_highest-keeps :
    (c : NandCounter) (s : Choice)
    → ((raise_highest c s).index ≡ s.index) × ((raise_highest c s).lowest_value ≡ s.lowest_value)
unfolding raise_highest
raise_highest-keeps c s = elim (Bool-cases (leb s.highest_value (nand_gen c))) [
  | inl e ↦ rw e (refl, refl)
  | inr e ↦ rw e (refl, refl)
]

consider-Indexed :
    (current : ℕ) (c : NandCounter) (s : Choice) → Indexed current c s (consider current c s)
unfolding Indexed consider lower_lowest
consider-Indexed current c s = elim (Bool-cases (is_valid c)) [
  | inr invalid ↦ inl (rw invalid refl)
  | inl valid ↦
      let t = raise_highest c s in
      let keeps = raise_highest-keeps c s in
      elim (Bool-cases (ltb (nand_gen c) t.lowest_value)) [
        | inl e ↦ inl (rw (valid, e) refl)
        | inr e ↦
            let high : t.lowest_value ≤ nand_gen c = ground arith in
            inr (rw (valid, e) keeps.0, rw (valid, e) keeps.1, omega (arith, high, keeps.1))
      ]
]

-- There is an index below `k`.
abbrev pub IndexedBelow : ℕ → Choice → Type 0
IndexedBelow k s = (j : ℕ) × (s.index ≡ some j) × (j < k)

consider_index :
    (current : ℕ) (c : NandCounter) (s : Choice)
    → ((consider current c s).index ≡ s.index) ⊎ IndexedBelow (current + 1) (consider current c s)
unfolding Indexed
consider_index current c s = elim (consider-Indexed current c s) [
  | inl e ↦ inr (current, e, omega arith)
  | inr (e, _, _) ↦ inl e
]

-- The index is the one before, or that of a counter in the list.
pub choose_index :
    (current : ℕ) (cs : List NandCounter) (s : Choice)
    → ((choose current cs s).index ≡ s.index)
      ⊎ IndexedBelow (current + length cs) (choose current cs s)
unfolding choose
choose_index current [] s = inl refl
choose_index current (c ∷ cs) s =
    let t = consider current c s in
    elim (choose_index (current + 1) cs t) [
      | inr (j, e, lt) ↦ inr (j, e, omega (arith, lt))
      | inl e ↦ elim (consider_index current c s) [
        | inl f ↦ inl (e ∙ f)
        | inr (j, f, lt) ↦ inr (j, e ∙ f, omega (arith, lt))
      ]
    ]

-- The index is set, or every counter that is not the highest possible sets it.
IsOpen : Choice → Type 0
IsOpen s = (s.lowest_value ≡ 2 ^ 32 - 1) ⊎ ((j : ℕ) × (s.index ≡ some j))

consider-IsOpen :
    (current : ℕ) (c : NandCounter) (s : Choice) → IsOpen s → IsOpen (consider current c s)
unfolding Indexed IsOpen
consider-IsOpen current c s left = elim (consider-Indexed current c s) [
  | inl e ↦ inr (current, e)
  | inr (e, low, _) ↦ elim left [ inl l ↦ inl (low ∙ l) | inr (j, f) ↦ inr (j, e ∙ f) ]
]

consider_sets :
    (current : ℕ) (n : NandCounter) (s : Choice)
    → nand_gen n < 2 ^ 32 - 1
    → IsOpen s
    → (j : ℕ) × ((consider current n s).index ≡ some j)
unfolding Indexed IsOpen
consider_sets current n s lt left = elim (consider-Indexed current n s) [
  | inl e ↦ (current, e)
  | inr (e, low, high) ↦ elim left [
    | inl l ↦ absurd (omega (arith, lt, high, l))
    | inr (j, f) ↦ (j, e ∙ f)
  ]
]

choose_keeps :
    (current j : ℕ) (cs : List NandCounter) (s : Choice)
    → s.index ≡ some j
    → (k : ℕ) × ((choose current cs s).index ≡ some k)
choose_keeps current j cs s f = elim (choose_index current cs s) [
  | inl e ↦ (j, e ∙ f)
  | inr (k, e, _) ↦ (k, e)
]

replace_open :
    (current i : ℕ) (n : NandCounter) (cs : List NandCounter) (s : Choice)
    → i < length cs
    → nand_gen n < 2 ^ 32 - 1
    → IsOpen s
    → (k : ℕ) × ((choose current (replace i n cs) s).index ≡ some k)
unfolding choose
replace_open current i n [] s lt small left = absurd (omega (arith, lt))
replace_open current zero n (c ∷ cs) s lt small left =
    let (j, e) = consider_sets current n s small left in
    choose_keeps (current + 1) j cs (consider current n s) e
replace_open current (suc i) n (c ∷ cs) s lt small left =
    replace_open (current + 1) i n cs (consider current c s) (omega (arith, lt)) small
      (consider-IsOpen current c s left)

pub replace_sets :
    (i : ℕ) (n : NandCounter) (cs : List NandCounter)
    → i < length cs
    → nand_gen n < 2 ^ 32 - 1
    → (k : ℕ) × ((choose 0 (replace i n cs) no_choice).index ≡ some k)
unfolding IsOpen
replace_sets i n cs lt small = replace_open 0 i n cs no_choice lt small (inl refl)
