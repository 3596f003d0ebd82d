-- ===== src/Seeprom/Shifted.antt =====
-- What `BOOT2_GetCounter` of kernel/source/crypto/seeprom.c copies.
use star_struck.Base.{
  ℕ, ◌+◌, ◌*◌, ◌/◌, ◌^◌, ◌<◌, ◌≡◌, refl, sym, ◌∙◌, true, Bool-cases, ltb, leb, ◌==◌, ◌⊎◌, inl, inr,
  ap, List, ◌++◌, Option, some, none, arith,
}
use mathlib.Core.Option.{some-injective}
use star_struck.Seeprom.Boot2.{
  Boot2Counter, Boot2Choice, no_boot2_choice, boot2_checksum, version, update_tag, words_of,
  counter_at, raise_boot2, lower_boot2, consider_boot2, choose_boot2, copied_boot2,
}

-- A round points to the tag of its counter, whose checksum is right, or leaves the pointer.
consider_boot2-ptr :
    (current : ℕ) (c : Boot2Counter) (s : Boot2Choice)
    → ((consider_boot2 current c s).ptr_out ≡ s.ptr_out)
      ⊎ (((consider_boot2 current c s).ptr_out ≡ some (current * 5 + 2))
          × ((boot2_checksum c == c.checksum) ≡ true))
unfolding consider_boot2 raise_boot2 lower_boot2
consider_boot2-ptr current c s =
    let tag = update_tag c in
    let t = raise_boot2 current tag s in
    elim (Bool-cases (boot2_checksum c == c.checksum)) [
      | inr e ↦ inl (rw e refl)
      | inl e ↦ elim (Bool-cases (leb s.highest_value tag)) [
        | inl f ↦ elim (Bool-cases (ltb tag t.lowest_value)) [
          | inl g ↦ inr (rw (e, g, f) refl, e)
          | inr g ↦ inr (rw (e, g, f) refl, e)
        ]
        | inr f ↦ elim (Bool-cases (ltb tag t.lowest_value)) [
          | inl g ↦ inl (rw (e, g, f) refl)
          | inr g ↦ inl (rw (e, g, f) refl)
        ]
      ]
    ]

-- The version that is copied from the tag of the counter `c`.
abbrev pub IsTagVersion : Boot2Counter → Boot2Counter → Type 0
IsTagVersion c copy =
    ((boot2_checksum c == c.checksum) ≡ true) × (version copy ≡ update_tag c / 2 ^ 24)

-- Where a counter is copied, it comes from the pointer.
copied_from :
    (stack ws : List ℕ) (q i : Option ℕ) (high low : ℕ) (copy : Boot2Counter) (k : ℕ)
    → copied_boot2 stack ws
        (record { index = i; ptr_out = q; highest_value = high; lowest_value = low })
      ≡ some (copy, k)
    → (p : ℕ) × (q ≡ some p) × (counter_at (ws ++ stack) p ≡ copy)
unfolding copied_boot2
copied_from stack ws none i high low copy k e = cc
copied_from stack ws (some p) none high low copy k e = cc
copied_from stack ws (some p) (some i) high low copy k e =
    (p, refl, ap (λ r. r.0) (some-injective (counter_at (ws ++ stack) p, i) (copy, k) e))

choose_boot2-ptr :
    (a b : Boot2Counter) (p : ℕ)
    → (choose_boot2 (words_of a ++ words_of b)).ptr_out ≡ some p
    → ((p ≡ 2) × ((boot2_checksum a == a.checksum) ≡ true))
      ⊎ ((p ≡ 7) × ((boot2_checksum b == b.checksum) ≡ true))
unfolding choose_boot2
choose_boot2-ptr a b p e =
    let s = consider_boot2 0 a no_boot2_choice in
    elim (consider_boot2-ptr 1 b s) [
      | inr (f, valid) ↦ inr (some-injective p 7 (sym e ∙ f), valid)
      | inl f ↦ elim (consider_boot2-ptr 0 a no_boot2_choice) [
        | inr (g, valid) ↦ inl (some-injective p 2 (sym e ∙ f ∙ g), valid)
        | inl g ↦ cc
      ]
    ]

-- The counter that `BOOT2_GetCounter` gives is shifted by the four bytes in front of the tag: its
-- version is not the version of a counter, but the highest byte of the tag of a counter whose
-- checksum is right. The words of the counters are of 16 bits.
pub copied_boot2-tag :
    (stack : List ℕ) (a b copy : Boot2Counter) (i : ℕ)
    → a.data3 < 2 ^ 16
    → b.data3 < 2 ^ 16
    → copied_boot2 stack (words_of a ++ words_of b) (choose_boot2 (words_of a ++ words_of b))
      ≡ some (copy, i)
    → IsTagVersion a copy ⊎ IsTagVersion b copy
copied_boot2-tag stack a b copy i lt1 lt2 e =
    let ws = words_of a ++ words_of b in
    let s = choose_boot2 ws in
    let (p, at, from) =
      copied_from stack ws s.ptr_out s.index s.highest_value s.lowest_value copy i e in
    elim (choose_boot2-ptr a b p at) [
      | inl (place, valid) ↦
          let same = ap version (sym from) ∙ ap (λ q. version (counter_at (ws ++ stack) q)) place in
          inl (valid, same ∙ omega (arith, lt1))
      | inr (place, valid) ↦
          let same = ap version (sym from) ∙ ap (λ q. version (counter_at (ws ++ stack) q)) place in
          inr (valid, same ∙ omega (arith, lt2))
    ]
