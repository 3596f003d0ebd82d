-- ===== src/Iosc/Deleted.antt =====
-- Deletion of the entries of one key: the loop of `IOSC_DeleteKeyringEntry` in
-- kernel/source/crypto/iosc.c on a chain.
use star_struck.Base.{
  Bool, ℤ, ℕ, zero, suc, ◌<◌, leb, ◌==◌, ◌≡◌, ◌≢◌, refl, ap, sym, ◌∙◌, inl, inr, true, false, List,
  [], ◌∷◌, has, length, pos, ok, Bool-cases, arith, if◌then◌else◌,
}
use star_struck.Keyring.State.{
  Keyring, KeyringEntry, total_entries, iosc_einval, clear_entry_data, ipc_success, is_invalid,
}
use star_struck.Keyring.Chains.{Parts, Parts-frame}
use star_struck.Iosc.Objects.{delete_entries, delete_from, delete_keyring_entry, free_handle}

-- What the deletion of the entries `ps` leaves.
pub record Freed (r : Keyring) (ps : List ℕ) (g : Keyring) : Type 0 where
  pub kept : (j : ℕ) → has j ps ≡ false → g.entries j ≡ r.entries j
  pub free : (j : ℕ) → has j ps ≡ true → (g.entries j).is_used ≡ false
  pub handles : g.handles ≡ r.handles

clear-kept :
    (j p : ℕ) (r : Keyring) → (j == p) ≡ false → (clear_entry_data p r).entries j ≡ r.entries j
clear-kept j p r n = ground (arith, n)

clear-free :
    (j p : ℕ) (r : Keyring) → (j == p) ≡ true → ((clear_entry_data p r).entries j).is_used ≡ false
clear-free j p r e = ground (arith, e)

module _ (fuel p : ℕ) (r : Keyring) (low : p < total_entries)
    (used : (r.entries p).is_used ≡ true) where
  delete_entries-last :
      (r.entries p).key_next_part_index ≡ 0
      → delete_entries (suc fuel) p r ≡ ok (ipc_success, clear_entry_data p r)
  unfolding delete_entries
  delete_entries-last link = ground (arith, low, used, link)

  delete_entries-next :
      (q : ℕ)
      → (r.entries p).key_next_part_index ≡ q
      → (r.entries p).key_next_part_index ≢ 0
      → q < total_entries
      → delete_entries (suc fuel) p r ≡ delete_entries fuel q (clear_entry_data p r)
  unfolding delete_entries
  delete_entries-next q link other small =
      let there = ap (λ (i : ℕ). delete_entries fuel i (clear_entry_data p r)) link in
      ground (arith, low, used, link, other, small, there)

last-Freed : (p : ℕ) (r : Keyring) → Freed r (p ∷ []) (clear_entry_data p r)
last-Freed p r = record {
  kept = λ j n. clear-kept j p r (ground (arith, n));
  free = λ j m. clear-free j p r (ground (arith, m));
  handles = refl;
}

next-Freed :
    (p : ℕ) (ps : List ℕ) (r g : Keyring)
    → has p ps ≡ false
    → Freed (clear_entry_data p r) ps g
    → Freed r (p ∷ ps) g
next-Freed p ps r g out f = record {
  kept = λ j n. f.kept j (ground (arith, n)) ∙ clear-kept j p r (ground (arith, n));
  free = λ j m. elim (Bool-cases (has j ps)) [
    | inl later ↦ f.free j later
    | inr n ↦
        ap (λ (e : KeyringEntry). e.is_used) (f.kept j n) ∙ clear-free j p r (ground (arith, m, n))
  ];
  handles = f.handles;
}

ne_of_mem : (j p : ℕ) (ps : List ℕ) → has j ps ≡ true → has p ps ≡ false → (j == p) ≡ false
ne_of_mem j p ps m out = elim (Bool-cases (j == p)) [
  | inl e ↦
      let same : j ≡ p = ground (arith, e) in
      absurd (cc (sym m ∙ ap (λ (i : ℕ). has i ps) same ∙ out))
  | inr n ↦ n
]

-- The loop frees the parts of a chain.
pub delete_entries-Freed :
    (fuel p : ℕ) (ps : List ℕ) (r : Keyring)
    → length ps < fuel
    → Parts r (p ∷ ps)
    → (g : Keyring) × (delete_entries fuel p r ≡ ok (ipc_success, g)) × Freed r (p ∷ ps) g
delete_entries-Freed zero p ps r enough parts = absurd (omega arith)
delete_entries-Freed (suc fuel) p [] r enough parts =
    (clear_entry_data p r, delete_entries-last fuel p r parts.0 parts.1 parts.4, last-Freed p r)
delete_entries-Freed (suc fuel) p (q ∷ qs) r enough parts =
    let (g, deleted, f) =
      delete_entries-Freed fuel q qs (clear_entry_data p r) (omega (arith, enough)) (
        Parts-frame r (clear_entry_data p r) (q ∷ qs)
          (λ j m. clear-kept j p r (ne_of_mem j p (q ∷ qs) m parts.3)) parts.5) in
    (
      g,
      delete_entries-next fuel p r parts.0 parts.1 q parts.4.0 parts.4.1 parts.5.0 ∙ deleted,
      next-Freed p (q ∷ qs) r g parts.3 f,
    )

delete_keyring_entry-from :
    (h p : ℕ) (r : Keyring)
    → is_invalid h r ≡ false
    → (r.handles h).keyring_index ≡ pos p
    → p < total_entries
    → delete_keyring_entry h r ≡ delete_entries 65 p (free_handle h r)
unfolding delete_keyring_entry
delete_keyring_entry-from h p r valid index small =
    let low : leb total_entries p ≡ false = ground (arith, small) in
    ap
      (λ (b : Bool).
        if b
        then ok (iosc_einval, r)
        else delete_from ((r.handles h).keyring_index) (free_handle h r))
      valid
    ∙ (ap (λ (i : ℤ). delete_from i (free_handle h r)) index
        ∙ ap
            (λ (b : Bool).
              if b
              then ok (iosc_einval, free_handle h r)
              else delete_entries 65 p (free_handle h r))
            low)

-- `IOSC_DeleteKeyringEntry` of a key whose entries are `p ∷ ps`
pub delete_keyring_entry-Freed :
    (h p : ℕ) (ps : List ℕ) (r : Keyring)
    → is_invalid h r ≡ false
    → (r.handles h).keyring_index ≡ pos p
    → length ps < total_entries
    → Parts r (p ∷ ps)
    → (g : Keyring) × (delete_keyring_entry h r ≡ ok (ipc_success, g))
      × Freed (free_handle h r) (p ∷ ps) g
delete_keyring_entry-Freed h p ps r valid index short parts =
    let (g, deleted, f) =
      delete_entries-Freed 65 p ps (free_handle h r) (omega (arith, short))
        (Parts-frame r (free_handle h r) (p ∷ ps) (λ j m. refl) parts) in
    (g, delete_keyring_entry-from h p r valid index parts.0 ∙ deleted, f)
