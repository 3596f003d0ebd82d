-- ===== src/Seeprom/Updated.antt =====
-- The choice of `NAND_GetCounter` behind the write of `NAND_UpdateGen` in kernel/source/crypto/nand.c.
use star_struck.Base.{
  ℕ, zero, suc, ◌+◌, ◌-◌, ◌^◌, ◌<◌, ◌≤◌, ◌≡◌, refl, sym, ◌∙◌, ap, true, ==_refl, inl, inr, List, [],
  ◌∷◌, length, some, arith,
}
use mathlib.Core.Path.{subst}
use mathlib.Core.Option.{some-injective}
use mathlib.Core.List.{Memᴰ}
use mathlib.Core.List.Memᴰ.{head, tail}
use star_struck.Seeprom.Counters.{
  NandCounter, nand_gen, Choice, no_choice, consider, choose, chosen, next_counter,
}
use star_struck.Seeprom.Index.{replace, choose_index, replace_sets}
use star_struck.Seeprom.Newest.{
  is_valid, Below, IsNewest, choose-IsNewest, Chosen, consider-Considered, choose-Chosen,
}

Below-mem :
    (v : ℕ) (c : NandCounter) (cs : List NandCounter)
    → Memᴰ c cs
    → Below v cs
    → is_valid c ≡ true
    → nand_gen c ≤ v
Below-mem v c [] m b h = elim m [ ]
Below-mem v c (d ∷ ds) (head e) b h =
    let low = b.0 (ap is_valid (sym e) ∙ h) in omega (arith, low, ap nand_gen e)
Below-mem v c (d ∷ ds) (tail m) b h = Below-mem v c ds m b.1 h

-- A counter of a higher generation than all others stays the one that is pointed to.
newest-stays :
    (v : ℕ) (n : NandCounter) (cs : List NandCounter) (t r : Choice)
    → v < nand_gen n
    → Below v cs
    → t.ptr_out ≡ some n
    → t.highest_value ≡ nand_gen n
    → Chosen cs t r
    → r.ptr_out ≡ some n
newest-stays v n cs t r lt b p e h = elim (h.source) [
  | inl (q, same, u) ↦ q ∙ p
  | inr (d, q, m, valid, high) ↦
      absurd (omega (arith, lt, e, high, h.grows, Below-mem v d cs m b valid))
]

replace-newest :
    (current i v : ℕ) (n : NandCounter) (cs : List NandCounter) (s : Choice)
    → i < length cs
    → is_valid n ≡ true
    → v < nand_gen n
    → Below v cs
    → s.highest_value ≤ v
    → (choose current (replace i n cs) s).ptr_out ≡ some n
unfolding choose
replace-newest current i v n [] s lt valid big b low = absurd (omega (arith, lt))
replace-newest current zero v n (c ∷ cs) s lt valid big b low =
    let t = consider current n s in
    elim (consider-Considered current n s) [
      | inl (under, p, e) ↦ absurd (omega (arith, under valid, big, low))
      | inr (_, up, p, e) ↦
          newest-stays v n cs t (choose (current + 1) cs t) big b.1 p e
            (choose-Chosen (current + 1) cs t)
    ]
replace-newest current (suc i) v n (c ∷ cs) s lt valid big b low =
    let t = consider current c s in
    let low1 : t.highest_value ≤ v = elim (consider-Considered current c s) [
      | inl (under, p, e) ↦ omega (arith, e, low)
      | inr (right, up, p, e) ↦ omega (arith, e, b.0 right)
    ] in
    replace-newest (current + 1) i v n cs t (omega (arith, lt)) valid big b.1 low1

next_counter-gen :
    (c : NandCounter)
    → nand_gen c + 1 < 2 ^ 32
    → (is_valid (next_counter c) ≡ true) × (nand_gen (next_counter c) ≡ nand_gen c + 1)
unfolding next_counter
next_counter-gen c lt = let gen = nand_gen c + 1 in (==_refl _, omega (arith, lt))

-- Where `NAND_GetCounter` chooses the counter `c` and the index `i`, and the generation of `c` is
-- less than 2^32 - 2, a write of the next counter to that index makes the function choose it, with
-- a generation that is one higher, and with an index for the write behind it.
pub choose-replace :
    (c : NandCounter) (i : ℕ) (cs : List NandCounter)
    → (choose 0 cs no_choice).ptr_out ≡ some c
    → (choose 0 cs no_choice).index ≡ some i
    → nand_gen c + 2 < 2 ^ 32
    → (nand_gen (next_counter c) ≡ nand_gen c + 1)
      × ((j : ℕ) × (chosen (choose 0 (replace i (next_counter c) cs) no_choice)
            ≡ some (next_counter c, j)))
choose-replace c i cs at index lt =
    let n = next_counter c in
    let (valid, e) = next_counter-gen c (omega (arith, lt)) in
    let inside : i < length cs = elim (choose_index 0 cs no_choice) [
      | inl e ↦ cc
      | inr (j, e, below) ↦ omega (arith, below, some-injective i j (sym index ∙ e))
    ] in
    let newest = subst (λ o. IsNewest cs o) at (choose-IsNewest cs) in
    let big : nand_gen c < nand_gen n = omega (arith, e) in
    let small : nand_gen n < 2 ^ 32 - 1 = omega (arith, e, lt) in
    let (j, set) = replace_sets i n cs inside small in
    let points =
      replace-newest 0 i (nand_gen c) n cs no_choice inside valid big (newest.2) (omega arith) in
    (e, (j, rw (points, set) refl))
