-- ===== src/Keyring/Stored.antt =====
-- A key from `Keyring_GetHandleFitSize` to `Keyring_GetKey` in kernel/source/crypto/keyring.c.
use star_struck.Base.{
  ℕ, zero, suc, ◌+◌, ◌*◌, ◌≤◌, ◌<◌, ◌≡◌, refl, sym, ◌∙◌, ap, Bool, true, false, Bool-cases, inl,
  inr, List, ◌∷◌, pos, has, length, ◌==◌, ==_refl, lt_int, if◌then◌else◌, arith, ok,
}
use star_struck.Keyring.State.{
  Keyring, KeyringEntry, total_entries, metadata_total_entries, ipc_success, set_handle, is_invalid,
}
use star_struck.Keyring.Alloc.{
  find_handle, take_handle, get_handle_fit_size, get_key_index_fit_size,
}
use star_struck.Keyring.Bytes.{set_key, get_key}
use star_struck.Keyring.Entries.{free_entries}
use star_struck.Keyring.Allocation.{Allocated, get_key_index_fit_size-Allocated}
use star_struck.Keyring.RoundTrip.{get_key-set_key}

-- The scan takes the first handle that is free.
find_handle-first :
    (n i h size : ℕ) (r : Keyring)
    → i ≤ h
    → h < i + n
    → (r.handles h).is_used ≡ false
    → ((j : ℕ) → i ≤ j → j < h → (r.handles j).is_used ≡ true)
    → find_handle n i size r ≡ take_handle h size r
unfolding find_handle
find_handle-first zero i h size r le lt free before = absurd (omega (arith, le, lt))
find_handle-first (suc n) i h size r le lt free before =
    let choose =
      λ (i : ℕ) (b : Bool). if b then find_handle n (i + 1) size r else take_handle i size r in
    elim (Bool-cases ((r.handles i).is_used)) [
      | inl used ↦
          ap (choose i) used
          ∙ (find_handle-first n (i + 1) h size r (lt_of_used i h r le free used)
              (omega (arith, lt)) free (λ j a b. before j (omega (arith, a)) b))
      | inr here ↦
          ap (choose i) here
          ∙ (ap (λ (x : ℕ). take_handle x size r) (eq_of_free i h r le free here before))
    ]
  where
    eq_of_test : (i h : ℕ) → (i == h) ≡ true → i ≡ h
    eq_of_test i h e = ground arith

    lt_of_used :
        (i h : ℕ) (r : Keyring)
        → i ≤ h
        → (r.handles h).is_used ≡ false
        → (r.handles i).is_used ≡ true
        → i + 1 ≤ h
    lt_of_used i h r le free used = elim (Bool-cases (i == h)) [
      | inl e ↦
          absurd (cc (sym used ∙ ap (λ (x : ℕ). (r.handles x).is_used) (eq_of_test i h e) ∙ free))
      | inr n ↦ ground (arith, le, n)
    ]

    eq_of_free :
        (i h : ℕ) (r : Keyring)
        → i ≤ h
        → (r.handles h).is_used ≡ false
        → (r.handles i).is_used ≡ false
        → ((j : ℕ) → i ≤ j → j < h → (r.handles j).is_used ≡ true)
        → i ≡ h
    eq_of_free i h r le free here before = elim (Bool-cases (i == h)) [
      | inl e ↦ eq_of_test i h e
      | inr n ↦ absurd (cc (sym (before i (omega arith) (ground (arith, le, n))) ∙ here))
    ]

-- The handle taken, and then the index of its key put in.
unfoldable pub used_handle : ℕ → Keyring → Keyring
used_handle h r = set_handle r h (record (r.handles h) { is_used = true })

unfoldable pub named_handle : ℕ → ℕ → Keyring → Keyring
named_handle h p r = set_handle r h (record (r.handles h) { keyring_index = pos p })

free_entries_set_handle :
    (n i h : ℕ) (r : Keyring) → free_entries n i (used_handle h r) ≡ free_entries n i r
unfolding free_entries used_handle
free_entries_set_handle zero i h r = refl
free_entries_set_handle (suc n) i h r =
    ap (λ (x : ℕ). (if (r.entries i).is_used then 0 else 1) + x)
      (free_entries_set_handle n (i + 1) h r)

pub named-entries : (h p : ℕ) (r : Keyring) → (named_handle h p r).entries ≡ r.entries
unfolding named_handle
named-entries h p r = refl

pub used-entries : (h : ℕ) (r : Keyring) → (used_handle h r).entries ≡ r.entries
unfolding used_handle
used-entries h r = refl

take_handle-named :
    (h p size : ℕ) (r r2 : Keyring)
    → 0 < size
    → get_key_index_fit_size size (used_handle h r) ≡ ok (pos p, r2)
    → take_handle h size r ≡ ok (ipc_success, h, named_handle h p r2)
unfolding take_handle used_handle named_handle
take_handle-named h p size r r2 some_size found =
    let sized : (size == 0) ≡ false = ground (arith, some_size) in
    let whole : lt_int (pos p) (pos 0) ≡ false = ground arith in rw (sized, found, whole) refl

module _ (h p : ℕ) (r r2 : Keyring) (same : r2.handles ≡ (used_handle h r).handles) where
  pub named-valid : h < metadata_total_entries → is_invalid h (named_handle h p r2) ≡ false
  unfolding used_handle named_handle
  named-valid lt = rw (same, ==_refl h) (ground arith)

  pub named-index : ((named_handle h p r2).handles h).keyring_index ≡ pos p
  unfolding named_handle
  named-index = rw (==_refl h) refl

-- A key of at least one byte, for which the free entries have room, gets the first free handle.
pub get_handle_fit_size-Allocated :
    (r : Keyring) (h size : ℕ)
    → 0 < size
    → size ≤ 32 * free_entries total_entries 0 r
    → h < metadata_total_entries
    → (r.handles h).is_used ≡ false
    → ((j : ℕ) → j < h → (r.handles j).is_used ≡ true)
    → (p : ℕ) × (ps : List ℕ) × (r2 : Keyring) × (get_handle_fit_size size r
        ≡ ok (ipc_success, h, named_handle h p r2))
      × Allocated (used_handle h r) size p ps r2
unfolding get_handle_fit_size
get_handle_fit_size-Allocated r h size some_size room lt free before =
    let (p, ps, r2, found, a) =
      get_key_index_fit_size-Allocated (used_handle h r) size some_size
        (rw (free_entries_set_handle total_entries 0 h r) room) in
    (
      p,
      ps,
      r2,
      find_handle-first metadata_total_entries 0 h size r (omega arith) (omega (arith, lt)) free
            (λ j _ b. before j b)
          ∙ take_handle-named h p size r r2 some_size found,
      a,
    )

-- A key of at least one byte, for which the free entries have room, gets the first free handle. The
-- bytes that `SetKey` then stores under the handle are those that `GetKey` returns.
pub get_handle_fit_size-get_key :
    (r : Keyring) (h : ℕ) (bytes : List ℕ)
    → 0 < length bytes
    → length bytes ≤ 32 * free_entries total_entries 0 r
    → h < metadata_total_entries
    → (r.handles h).is_used ≡ false
    → ((j : ℕ) → j < h → (r.handles j).is_used ≡ true)
    → (g s : Keyring) × (get_handle_fit_size (length bytes) r ≡ ok (ipc_success, h, g))
      × (set_key h bytes (length bytes) g ≡ ok (ipc_success, s))
      × (get_key h (length bytes) s ≡ ok (ipc_success, bytes))
      × ((j : ℕ) → (r.entries j).is_used ≡ true → s.entries j ≡ r.entries j)
get_handle_fit_size-get_key r h bytes some_bytes room lt free before =
    let (p, ps, r2, found, a) =
      get_handle_fit_size-Allocated r h (length bytes) some_bytes room lt free before in
    let (s, sets, gets, kept, _) =
      get_key-set_key (named_handle h p r2) h p ps bytes (named-valid h p r r2 a.handles lt)
        (named-index h p r r2 a.handles) (unfold named_handle in a.parts) (omega (arith, a.short))
        a.room in
    (
      named_handle h p r2,
      s,
      found,
      sets,
      gets,
      λ j used.
          let out =
            not_fresh j (p ∷ ps) (used_handle h r) (a.fresh j) (rw (used-entries h r) used) in
          kept j out
          ∙ (ap (λ (es : ℕ → KeyringEntry). es j) (named-entries h p r2)
              ∙ (a.kept j out ∙ ap (λ (es : ℕ → KeyringEntry). es j) (used-entries h r))),
    )
  where
    not_fresh :
        (j : ℕ) (ps : List ℕ) (r : Keyring)
        → (has j ps ≡ true → (r.entries j).is_used ≡ false)
        → (r.entries j).is_used ≡ true
        → has j ps ≡ false
    not_fresh j ps r fresh used = elim (Bool-cases (has j ps)) [
      | inl m ↦ absurd (cc (sym used ∙ fresh m))
      | inr n ↦ n
    ]
