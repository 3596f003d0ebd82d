-- ===== src/Iosc/Ended.antt =====
-- The loop of `IOSC_DeleteKeyringEntry` in kernel/source/crypto/iosc.c ends.
use star_struck.Base.{
  ℕ, zero, suc, ◌+◌, ◌≤◌, ◌<◌, leb, ◌==◌, ◌≡◌, ◌≢◌, refl, inl, inr, true, ℤ, pos, negsuc, hang,
  Bool-cases, arith,
}
use star_struck.Keyring.State.{Keyring, total_entries, clear_entry_data}
use star_struck.Keyring.Entries.{free_entries}
use star_struck.Iosc.Objects.{delete_entries, delete_from, delete_keyring_entry, free_handle}

pub free_entries-bounded : (n i : ℕ) (r : Keyring) → free_entries n i r ≤ n
unfolding free_entries
free_entries-bounded zero i r = omega arith
free_entries-bounded (suc n) i r = ground (arith, free_entries-bounded n (i + 1) r)

-- An entry outside of the range does not count.
free_entries-outside :
    (n i j : ℕ) (r : Keyring) → j < i → free_entries n i (clear_entry_data j r) ≡ free_entries n i r
unfolding free_entries
free_entries-outside zero i j r h = refl
free_entries-outside (suc n) i j r h =
    let rest = free_entries-outside n (i + 1) j r (omega arith) in ground (arith, rest)

-- A used entry that is cleared is one more free entry.
pub free_entries-clear :
    (n i j : ℕ) (r : Keyring)
    → i ≤ j
    → j < i + n
    → (r.entries j).is_used ≡ true
    → free_entries n i (clear_entry_data j r) ≡ free_entries n i r + 1
unfolding free_entries
free_entries-clear zero i j r low high used = absurd (omega arith)
free_entries-clear (suc n) i j r low high used = elim (Bool-cases (j == i)) [
  | inl e ↦
      let same : j ≡ i = ground arith in
      let rest = free_entries-outside n (i + 1) j r (omega (arith, same)) in
      let old : (r.entries i).is_used ≡ true = rw same at used in ground (arith, rest, same, old)
  | inr ne ↦
      let rest =
        free_entries-clear n (i + 1) j r (ground (arith, low, ne)) (omega (arith, high)) used in
      ground (arith, rest, ne)
]

-- Rounds for all entries that are still used are enough.
pub delete_entries-ends :
    (fuel i : ℕ) (r : Keyring)
    → total_entries < fuel + free_entries total_entries 0 r
    → delete_entries fuel i r ≢ hang
unfolding delete_entries
delete_entries-ends zero i r few =
    absurd (omega (arith, free_entries-bounded total_entries 0 r, few))
delete_entries-ends (suc fuel) i r few = elim (Bool-cases (leb total_entries i)) [
  | inl out ↦ rw out (λ e. cc)
  | inr low ↦ elim (Bool-cases ((r.entries i).is_used)) [
    | inr unused ↦ rw (low, unused) (λ e. cc)
    | inl used ↦
        let more =
          free_entries-clear total_entries 0 i r (omega arith) (ground (arith, low)) used in
        let rest =
          delete_entries-ends fuel (r.entries i).key_next_part_index (clear_entry_data i r)
            (omega (arith, more, few)) in
        ground (arith, rest, low, used)
  ]
]

delete_from-ends : (i : ℤ) (r : Keyring) → delete_from i r ≢ hang
delete_from-ends (negsuc zero) r = λ e. cc
delete_from-ends (negsuc (suc n)) r = λ e. cc
delete_from-ends (pos i) r = elim (Bool-cases (leb total_entries i)) [
  | inl out ↦ rw out (λ e. cc)
  | inr low ↦ rw low (delete_entries-ends 65 i r (omega arith))
]

-- `IOSC_DeleteKeyringEntry` ends on every key store, whatever its links are.
pub delete_keyring_entry-ends : (h : ℕ) (r : Keyring) → delete_keyring_entry h r ≢ hang
unfolding delete_keyring_entry
delete_keyring_entry-ends h r =
    let from = delete_from-ends ((r.handles h).keyring_index) (free_handle h r) in
    ground (arith, from)
