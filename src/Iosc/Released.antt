-- ===== src/Iosc/Released.antt =====
-- `IOSC_DeleteObject` of kernel/source/crypto/iosc.c behind `IOSC_CreateObject`.
use star_struck.Base.{
  ℕ, ◌*◌, ◌≤◌, ◌<◌, ltb, ◌==◌, ◌≡◌, ◌≢◌, refl, ap, sym, ◌∙◌, true, false, Bool-cases, inl, inr,
  List, ◌∷◌, has, some, ok, arith, ==_refl,
}
use star_struck.Keyring.State.{
  Keyring, KeyringEntry, total_entries, metadata_total_entries, rsa4096_rootkey, ipc_success,
}
use star_struck.Keyring.Entries.{free_entries}
use star_struck.Keyring.Access.{get_key_size_from_type}
use star_struck.Iosc.Objects.{
  owns_key, create_object, delete_object, delete_custom_key, delete_keyring_entry,
  custom_start_index, free_handle,
}
use star_struck.Iosc.Deleted.{Freed, delete_keyring_entry-Freed}
use star_struck.Iosc.Created.{IsCreated, own_bit, create_object-IsCreated}

module _ (r g : Keyring) (pid h p : ℕ) (ps : List ℕ) (c : IsCreated r pid h p ps g)
    (lt : h < metadata_total_entries) where
  not_root : (h == rsa4096_rootkey) ≡ false
  not_root = ground (arith, lt)

  -- The maker of a key object owns it.
  pub owns_key-IsCreated : pid < 32 → owns_key pid h g ≡ ipc_success
  unfolding owns_key
  owns_key-IsCreated low = rw (not_root, c.owner, own_bit pid low) refl

  delete_object-made :
      (s : Keyring)
      → pid < 32
      → custom_start_index ≤ h
      → delete_keyring_entry h g ≡ ok (ipc_success, s)
      → delete_object ipc_success ipc_success pid h g ≡ ok (ipc_success, s)
  unfolding delete_object delete_custom_key
  delete_object-made s low custom deleted =
      let above : ltb h custom_start_index ≡ false = ground (arith, custom) in
      rw (owns_key-IsCreated low, above, not_root, deleted) refl

free_handle-other : (h k : ℕ) (r : Keyring) → k ≢ h → (free_handle h r).handles k ≡ r.handles k
free_handle-other h k r other = let n : (h == k) ≡ false = ground (arith, other) in rw n refl

free_handle-free : (h : ℕ) (r : Keyring) → ((free_handle h r).handles h).is_used ≡ false
free_handle-free h r = rw (==_refl h) refl

-- The key store behind both calls.
pub record IsReleased (r : Keyring) (h : ℕ) (s : Keyring) : Type 0 where
  pub used : (j : ℕ) → (s.entries j).is_used ≡ (r.entries j).is_used
  pub kept : (j : ℕ) → (r.entries j).is_used ≡ true → s.entries j ≡ r.entries j
  pub handles : (k : ℕ) → k ≢ h → s.handles k ≡ r.handles k
  pub free : (s.handles h).is_used ≡ false

released :
    (r g s : Keyring) (pid h p : ℕ) (ps : List ℕ)
    → IsCreated r pid h p ps g
    → Freed (free_handle h g) (p ∷ ps) s
    → IsReleased r h s
released r g s pid h p ps c f = record {
  used = λ j. elim (Bool-cases (has j (p ∷ ps))) [
    | inl m ↦ f.free j m ∙ sym (c.fresh j m)
    | inr n ↦ ap (λ (e : KeyringEntry). e.is_used) (f.kept j n ∙ c.kept j n)
  ];
  kept = λ j used. elim (Bool-cases (has j (p ∷ ps))) [
    | inl m ↦ absurd (cc (sym used ∙ c.fresh j m))
    | inr n ↦ f.kept j n ∙ c.kept j n
  ];
  handles =
      λ k other. ap (λ hs. hs k) f.handles ∙ (free_handle-other h k g other ∙ c.handles k other);
  free = ap (λ hs. (hs h).is_used) f.handles ∙ free_handle-free h g;
}

-- A key object of a type with a size, for which the free entries have room, gets the first free handle.
-- The process that made it owns it, and where the handle is a custom one and the process number is below
-- 32, the process may delete it. The entries that are used and the other handles are then those from before.
pub create_object-delete_object :
    (pid type subtype size h : ℕ) (r : Keyring)
    → (get_key_size_from_type type subtype).1 ≡ some size
    → 0 < size
    → size ≤ 32 * free_entries total_entries 0 r
    → custom_start_index ≤ h
    → h < metadata_total_entries
    → (r.handles h).is_used ≡ false
    → ((j : ℕ) → j < h → (r.handles j).is_used ≡ true)
    → pid < 32
    → (g s : Keyring) × (create_object ipc_success ipc_success ipc_success pid type subtype r
        ≡ ok (ipc_success, some h, g))
      × (owns_key pid h g ≡ ipc_success)
      × (delete_object ipc_success ipc_success pid h g ≡ ok (ipc_success, s))
      × IsReleased r h s
create_object-delete_object pid type subtype size h r sized some_size room custom lt free before
      low =
    let (p, ps, g, made, c) =
      create_object-IsCreated pid type subtype size h r sized some_size room lt free before in
    let (s, deleted, f) = delete_keyring_entry-Freed h p ps g c.valid c.index c.short c.parts in
    (
      g,
      s,
      made,
      owns_key-IsCreated r g pid h p ps c lt low,
      delete_object-made r g pid h p ps c lt s low custom deleted,
      released r g s pid h p ps c f,
    )
