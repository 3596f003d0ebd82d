-- ===== src/Iosc/Created.antt =====
-- `IOSC_CreateObject` of kernel/source/crypto/iosc.c: the key object that it makes.
use star_struck.Base.{
  ℕ, suc, ◌*◌, ◌/◌, ◌%◌, ◌^◌, ◌≤◌, ◌<◌, ◌==◌, ◌≡◌, ◌≢◌, refl, ap, sym, ◌∙◌, true, false, List, ◌∷◌,
  has, length, pos, some, ok, arith, ==_refl,
}
use native.Mathlib.Nat.{pow-suc, one-le-pow, pow-le-pow_right, div_self}
use star_struck.Keyring.State.{
  Keyring, KeyringEntry, KeyKind, total_entries, metadata_total_entries, ipc_success, is_invalid,
  set_handle,
}
use star_struck.Keyring.Chains.{Parts, Parts-frame}
use star_struck.Keyring.Entries.{free_entries}
use star_struck.Keyring.Allocation.{Allocated}
use star_struck.Keyring.Access.{
  get_key_size_from_type, set_key_kind, set_key_owner_process, get_key_owner_process,
}
use star_struck.Keyring.Alloc.{get_handle_fit_size}
use star_struck.Keyring.Stored.{
  used_handle, named_handle, named-valid, used-entries, get_handle_fit_size-Allocated,
}
use star_struck.Iosc.Objects.{kind_for_size, set_new_key_kind, new_object, create_object}

-- The bit of a process.
pub own_bit : (pid : ℕ) → pid < 32 → 2 ^ (pid % 0x100) % 2 ^ 32 / 2 ^ (pid % 0x100) % 2 ≡ 1
own_bit pid low =
    let small : pid % 0x100 ≡ pid = omega (arith, low) in
    let some_bit : 0 < 2 ^ pid = one-le-pow pid 2 (omega arith) in
    let most : 2 ^ suc pid ≤ 2 ^ 32 =
      pow-le-pow_right (omega arith) {j = 32} (omega (arith, low)) in
    let whole : 2 ^ pid % 2 ^ 32 ≡ 2 ^ pid = omega (arith, most, some_bit, pow-suc 2 pid) in
    rw (small, whole, div_self some_bit) refl

-- The metadata of the new key: its kind, and its owner.
kinded : ℕ → KeyKind → Keyring → Keyring
kinded h kind r = set_handle r h (record (r.handles h) { kind = kind })

owned : ℕ → ℕ → Keyring → Keyring
owned h owner r = set_handle r h (record (r.handles h) { owner_process = owner })

module _ (h : ℕ) (r : Keyring) (valid : is_invalid h r ≡ false) where
  set_key_kind-kinded : (kind : KeyKind) → set_key_kind h kind r ≡ (ipc_success, kinded h kind r)
  unfolding set_key_kind kinded
  set_key_kind-kinded kind = rw valid refl

  set_key_owner_process-owned :
      (owner : ℕ) → set_key_owner_process h owner r ≡ (ipc_success, owned h owner r)
  unfolding set_key_owner_process owned
  set_key_owner_process-owned owner = rw valid refl

  kinded-valid : (kind : KeyKind) → is_invalid h (kinded h kind r) ≡ false
  unfolding kinded
  kinded-valid kind = rw (==_refl h) valid

  owned-valid : (owner : ℕ) → is_invalid h (owned h owner r) ≡ false
  unfolding owned
  owned-valid owner = rw (==_refl h) valid

  get_key_owner_process-owned :
      (owner : ℕ) → get_key_owner_process h (owned h owner r) ≡ (ipc_success, some owner)
  unfolding get_key_owner_process owned
  get_key_owner_process-owned owner = rw (==_refl h) (rw valid refl)

-- The key object `h` with the entries `p ∷ ps`, made in the key store `r`.
pub record IsCreated (r : Keyring) (pid h p : ℕ) (ps : List ℕ) (g : Keyring) : Type 0 where
  pub valid : is_invalid h g ≡ false
  pub index : (g.handles h).keyring_index ≡ pos p
  pub owner : get_key_owner_process h g ≡ (ipc_success, some (2 ^ (pid % 0x100) % 2 ^ 32))
  pub parts : Parts g (p ∷ ps)
  pub short : length ps < total_entries
  pub fresh : (j : ℕ) → has j (p ∷ ps) ≡ true → (r.entries j).is_used ≡ false
  pub kept : (j : ℕ) → has j (p ∷ ps) ≡ false → g.entries j ≡ r.entries j
  pub handles : (k : ℕ) → k ≢ h → g.handles k ≡ r.handles k

field_kind : ℕ → ℕ → KeyKind
field_kind type subtype = record { type = type % 16; subtype = subtype % 16 }

module _ (pid type subtype size h : ℕ) (r n : Keyring)
    (sized : (get_key_size_from_type type subtype).1 ≡ some size)
    (found : get_handle_fit_size size r ≡ ok (ipc_success, h, n))
    (valid : is_invalid h n ≡ false) where
  set_new_key_kind-kinded :
      set_new_key_kind type subtype r
      ≡ ok (ipc_success, some h, kinded h (field_kind type subtype) n)
  unfolding set_new_key_kind field_kind
  set_new_key_kind-kinded =
      ap (kind_for_size (field_kind type subtype) r) sized
      ∙ rw (found, set_key_kind-kinded h n valid (field_kind type subtype)) refl

  create_object-owned :
      create_object ipc_success ipc_success ipc_success pid type subtype r
      ≡ ok (
        ipc_success,
        some h,
        owned h (2 ^ (pid % 0x100) % 2 ^ 32) (kinded h (field_kind type subtype) n),
      )
  unfolding create_object new_object
  create_object-owned =
      let k = kinded h (field_kind type subtype) n in
      rw
        (
          set_new_key_kind-kinded,
          set_key_owner_process-owned h k (kinded-valid h n valid (field_kind type subtype))
              (2 ^ (pid % 0x100) % 2 ^ 32),
        )
        refl

module _ (h p owner : ℕ) (kind : KeyKind) (r r2 : Keyring) where
  made-entries : (owned h owner (kinded h kind (named_handle h p r2))).entries ≡ r2.entries
  unfolding owned kinded named_handle
  made-entries = refl

  made-index :
      ((owned h owner (kinded h kind (named_handle h p r2))).handles h).keyring_index ≡ pos p
  unfolding owned kinded named_handle
  made-index = rw (==_refl h) refl

  made-others :
      (k : ℕ)
      → k ≢ h
      → r2.handles ≡ (used_handle h r).handles
      → (owned h owner (kinded h kind (named_handle h p r2))).handles k ≡ r.handles k
  unfolding owned kinded named_handle used_handle
  made-others k other same =
      let n : (h == k) ≡ false = ground (arith, other) in rw (n, same) (rw n refl)

made-IsCreated :
    (pid h p owner : ℕ) (kind : KeyKind) (ps : List ℕ) (size : ℕ) (r r2 : Keyring)
    → h < metadata_total_entries
    → owner ≡ 2 ^ (pid % 0x100) % 2 ^ 32
    → Allocated (used_handle h r) size p ps r2
    → IsCreated r pid h p ps (owned h owner (kinded h kind (named_handle h p r2)))
made-IsCreated pid h p owner kind ps size r r2 lt e a =
    let n = named_handle h p r2 in
    let v = named-valid h p r r2 a.handles lt in
    let k = kinded h kind n in
    let w = kinded-valid h n v kind in
    record {
      valid = owned-valid h k w owner;
      index = made-index h p owner kind r r2;
      owner = get_key_owner_process-owned h k w owner ∙ ap (λ (x : ℕ). (ipc_success, some x)) e;
      parts =
          Parts-frame r2 (owned h owner k) (p ∷ ps)
            (λ j m. ap (λ (es : ℕ → KeyringEntry). es j) (made-entries h p owner kind r r2))
            a.parts;
      short = a.short;
      fresh = λ j m.
          ap (λ (es : ℕ → KeyringEntry). (es j).is_used) (sym (used-entries h r)) ∙ a.fresh j m;
      kept = λ j m.
          ap (λ (es : ℕ → KeyringEntry). es j) (made-entries h p owner kind r r2)
          ∙ (a.kept j m ∙ ap (λ (es : ℕ → KeyringEntry). es j) (used-entries h r));
      handles = λ j m. made-others h p owner kind r r2 j m a.handles;
    }

-- A key object of a type with a size, for which the free entries have room, gets the first free handle.
pub create_object-IsCreated :
    (pid type subtype size h : ℕ) (r : Keyring)
    → (get_key_size_from_type type subtype).1 ≡ some size
    → 0 < size
    → size ≤ 32 * free_entries total_entries 0 r
    → h < metadata_total_entries
    → (r.handles h).is_used ≡ false
    → ((j : ℕ) → j < h → (r.handles j).is_used ≡ true)
    → (p : ℕ) × (ps : List ℕ) × (g : Keyring) × (create_object ipc_success ipc_success ipc_success
          pid type subtype r
        ≡ ok (ipc_success, some h, g))
      × IsCreated r pid h p ps g
create_object-IsCreated pid type subtype size h r sized some_size room lt free before =
    let (p, ps, r2, found, a) =
      get_handle_fit_size-Allocated r h size some_size room lt free before in
    (
      p,
      ps,
      owned h (2 ^ (pid % 0x100) % 2 ^ 32)
          (kinded h (field_kind type subtype) (named_handle h p r2)),
      create_object-owned pid type subtype size h r (named_handle h p r2) sized found
          (named-valid h p r r2 a.handles lt),
      made-IsCreated pid h p (2 ^ (pid % 0x100) % 2 ^ 32) (field_kind type subtype) ps size r r2 lt
          refl a,
    )
