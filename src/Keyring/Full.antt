-- ===== src/Keyring/Full.antt =====
-- `Keyring_GetKeyIndexFitSize` of kernel/source/crypto/keyring.c where no entry is free.
use star_struck.Base.{
  ℕ, zero, suc, ◌+◌, ◌<◌, ◌≡◌, refl, ◌∙◌, ap, Bool, true, false, Bool-cases, inl, inr, negsuc, ltb,
  lt→ltb, if◌then◌else◌, arith, fault,
}
use star_struck.Keyring.State.{Keyring, total_entries}
use star_struck.Keyring.Alloc.{Fit, take_entry, fit_entries, release_from, get_key_index_fit_size}
use star_struck.Keyring.Entries.{free_entries}

fit_entries-full :
    (n i size : ℕ) (f : Fit) → free_entries n i f.ring ≡ 0 → fit_entries n i size f ≡ f
unfolding fit_entries free_entries
fit_entries-full zero i size f full = refl
fit_entries-full (suc n) i size f full = elim (Bool-cases ((f.ring.entries i).is_used)) [
  | inr free ↦ absurd (let r = rw free at full in omega (arith, r))
  | inl used ↦
      let rest = fit_entries-full n (i + 1) size f (let r = rw used at full in omega (arith, r)) in
      ap
        (λ (b : Bool).
          if ltb f.running_key_size size
          then fit_entries n (i + 1) size (if b then f else take_entry i f)
          else f)
        used
      ∙ (ap (λ (g : Fit). if ltb f.running_key_size size then g else f) rest
          ∙ same (ltb f.running_key_size size) f)
]
  where
    same : (b : Bool) (f : Fit) → (if b then f else f) ≡ f
    same true f = refl
    same false f = refl

-- Where no entry is free, the search for a key's entries is a memory fault: the release begins at the
-- index -1.
get_key_index_fit_size-full :
    (r : Keyring) (size : ℕ)
    → 0 < size
    → free_entries total_entries 0 r ≡ 0
    → get_key_index_fit_size size r ≡ fault
unfolding get_key_index_fit_size release_from
get_key_index_fit_size-full r size some_size full =
    let f : Fit = record { ring = r; running_key_size = 0; previous_link = 0; head = negsuc 0 } in
    let same : fit_entries total_entries 0 size f ≡ f =
      fit_entries-full total_entries 0 size f full in
    let more : ltb 0 size ≡ true = lt→ltb 0 size some_size in rw (same, more) refl
