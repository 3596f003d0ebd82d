-- ===== src/Strings/Compared.antt =====
-- `strcmp` and `strncmp` of core/source/string.c against the comparison of lists.
use star_struck.Base.{
  ℕ, zero, suc, ◌+◌, ◌<◌, ◌≡◌, refl, sym, ◌∙◌, ap, true, false, Bool-cases, inl, inr, List, [], ◌∷◌,
  length, take, ℤ, pos, ◌==◌, ◌||◌, not, if◌then◌else◌, arith, ok,
}
use star_struck.Strings.Memory.{Memory}
use star_struck.Strings.Compare.{all_bytes, difference, strcmp_from, strcmp, strncmp_from, strncmp}

-- The characters of the string at `s`, which a 0 ends.
abbrev pub IsString : Memory → ℕ → List ℕ → Type 0
IsString m s [] = m s ≡ 0
IsString m s (x ∷ xs) = (m s ≡ x) × (0 < x) × IsString m (s + 1) xs

-- The difference of the first characters that differ; a string's end counts as 0.
unfoldable pub compare_strings : List ℕ → List ℕ → ℤ
compare_strings [] [] = pos 0
compare_strings [] (y ∷ ys) = difference 0 y
compare_strings (x ∷ xs) [] = difference x 0
compare_strings (x ∷ xs) (y ∷ ys) =
    let rest = compare_strings xs ys in if x == y then rest else difference x y

at_next :
    (m : Memory) (s i : ℕ) (xs : List ℕ) → IsString m (s + i + 1) xs → IsString m (s + (i + 1)) xs
at_next m s i xs h = let e : s + (i + 1) ≡ s + i + 1 = omega arith in rw e h

-- One round at two characters.
strcmp_stop :
    (fuel a b i x y : ℕ) (m : Memory)
    → m (a + i) ≡ x
    → m (b + i) ≡ y
    → ((x == 0) || not (x == y)) ≡ true
    → strcmp_from (suc fuel) m a b i ≡ ok (difference x y)
unfolding strcmp_from
strcmp_stop fuel a b i x y m p q e = rw (p, q, e) refl

strcmp_next :
    (fuel a b i x y : ℕ) (m : Memory)
    → m (a + i) ≡ x
    → m (b + i) ≡ y
    → ((x == 0) || not (x == y)) ≡ false
    → strcmp_from (suc fuel) m a b i ≡ strcmp_from fuel m a b (i + 1)
unfolding strcmp_from
strcmp_next fuel a b i x y m p q e = rw (p, q, e) refl

strncmp_stop :
    (n a b i x y : ℕ) (m : Memory)
    → m (a + i) ≡ x
    → m (b + i) ≡ y
    → ((x == 0) || not (x == y)) ≡ true
    → strncmp_from (suc n) m a b i ≡ difference x y
unfolding strncmp_from
strncmp_stop n a b i x y m p q e = rw (p, q, e) refl

strncmp_next :
    (n a b i x y : ℕ) (m : Memory)
    → m (a + i) ≡ x
    → m (b + i) ≡ y
    → ((x == 0) || not (x == y)) ≡ false
    → strncmp_from (suc n) m a b i ≡ strncmp_from n m a b (i + 1)
unfolding strncmp_from
strncmp_next n a b i x y m p q e = rw (p, q, e) refl

compare_eq :
    (x y : ℕ) (xs ys : List ℕ)
    → (x == y) ≡ true
    → compare_strings (x ∷ xs) (y ∷ ys) ≡ compare_strings xs ys
unfolding compare_strings
compare_eq x y xs ys e = rw e refl

compare_ne :
    (x y : ℕ) (xs ys : List ℕ)
    → (x == y) ≡ false
    → compare_strings (x ∷ xs) (y ∷ ys) ≡ difference x y
unfolding compare_strings
compare_ne x y xs ys e = rw e refl

strcmp_from-compare_strings :
    (fuel : ℕ) (m : Memory) (a b i : ℕ) (xs ys : List ℕ)
    → IsString m (a + i) xs
    → IsString m (b + i) ys
    → length xs < fuel
    → strcmp_from fuel m a b i ≡ ok (compare_strings xs ys)
strcmp_from-compare_strings zero m a b i xs ys p q room = absurd (omega (arith, room))
strcmp_from-compare_strings (suc fuel) m a b i [] [] p q room =
    strcmp_stop fuel a b i 0 0 m p q refl ∙ unfold compare_strings in refl
strcmp_from-compare_strings (suc fuel) m a b i [] (y ∷ ys) p q room =
    strcmp_stop fuel a b i 0 y m p q.0 refl ∙ unfold compare_strings in refl
strcmp_from-compare_strings (suc fuel) m a b i (x ∷ xs) [] p q room =
    strcmp_stop fuel a b i x 0 m p.0 q (ground (arith, p.1)) ∙ unfold compare_strings in refl
strcmp_from-compare_strings (suc fuel) m a b i (x ∷ xs) (y ∷ ys) p q room =
    elim (Bool-cases (x == y)) [
      | inl e ↦
          strcmp_next fuel a b i x y m p.0 q.0 (ground (arith, p.1, e))
          ∙ strcmp_from-compare_strings fuel m a b (i + 1) xs ys (at_next m a i xs p.2)
              (at_next m b i ys q.2) (omega (arith, room))
          ∙ ap (λ r. ok r) (sym (compare_eq x y xs ys e))
      | inr e ↦
          strcmp_stop fuel a b i x y m p.0 q.0 (ground (arith, e))
          ∙ ap (λ r. ok r) (sym (compare_ne x y xs ys e))
    ]

strncmp_from-compare_strings :
    (n : ℕ) (m : Memory) (a b i : ℕ) (xs ys : List ℕ)
    → IsString m (a + i) xs
    → IsString m (b + i) ys
    → strncmp_from n m a b i ≡ compare_strings (take n xs) (take n ys)
strncmp_from-compare_strings zero m a b i xs ys p q = unfold strncmp_from compare_strings in refl
strncmp_from-compare_strings (suc n) m a b i [] [] p q =
    strncmp_stop n a b i 0 0 m p q refl ∙ unfold compare_strings in refl
strncmp_from-compare_strings (suc n) m a b i [] (y ∷ ys) p q =
    strncmp_stop n a b i 0 y m p q.0 refl ∙ unfold compare_strings in refl
strncmp_from-compare_strings (suc n) m a b i (x ∷ xs) [] p q =
    strncmp_stop n a b i x 0 m p.0 q (ground (arith, p.1)) ∙ unfold compare_strings in refl
strncmp_from-compare_strings (suc n) m a b i (x ∷ xs) (y ∷ ys) p q = elim (Bool-cases (x == y)) [
  | inl e ↦
      strncmp_next n a b i x y m p.0 q.0 (ground (arith, p.1, e))
      ∙ strncmp_from-compare_strings n m a b (i + 1) xs ys (at_next m a i xs p.2)
          (at_next m b i ys q.2)
      ∙ sym (compare_eq x y (take n xs) (take n ys) e)
  | inr e ↦
      strncmp_stop n a b i x y m p.0 q.0 (ground (arith, e))
      ∙ sym (compare_ne x y (take n xs) (take n ys) e)
]

-- On two strings of which the first is shorter than the address space, `strcmp` ends and compares them as
-- lists of characters, and `strncmp` compares their first `n` characters.
pub strcmp-compare_strings :
    (m : Memory) (s1 s2 : ℕ) (xs ys : List ℕ)
    → IsString m s1 xs
    → IsString m s2 ys
    → length xs < all_bytes
    → (strcmp m s1 s2 ≡ ok (compare_strings xs ys))
      × ((n : ℕ) → strncmp m s1 s2 n ≡ compare_strings (take n xs) (take n ys))
unfolding strcmp strncmp
strcmp-compare_strings m s1 s2 xs ys p q room = (
  strcmp_from-compare_strings all_bytes m s1 s2 0 xs ys (at_start s1 xs p) (at_start s2 ys q) room,
  λ n. strncmp_from-compare_strings n m s1 s2 0 xs ys (at_start s1 xs p) (at_start s2 ys q),
)
  where
    at_start : (s : ℕ) (xs : List ℕ) → IsString m s xs → IsString m (s + 0) xs
    at_start s xs h = let e : s + 0 ≡ s = omega arith in rw e h
