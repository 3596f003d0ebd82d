-- ===== src/Keyring/Alloc.antt =====
-- `Keyring_GetKeyIndexFitSize` and `Keyring_GetHandleFitSize` of kernel/source/crypto/keyring.c.
use star_struck.Base.{
  ℕ, zero, suc, ◌+◌, ℤ, pos, negsuc, lt_int, true, false, ltb, leb, ◌==◌, ◌||◌, if◌then◌else◌, Run,
  ok, fault, hang, ◌>>=◌,
}
use star_struck.Keyring.State.{
  Keyring, total_entries, metadata_total_entries, single_entry_key_max_size, iosc_fail_alloc,
  ipc_success, set_entry, set_handle, clear_entry_data,
}

-- The variables of the allocation loop. `running_key_size` is at most 64 * 32.
pub record Fit : Type 0 where
  pub ring : Keyring
  pub running_key_size : ℕ
  pub previous_link : ℕ
  pub head : ℤ

-- One round for a free entry: clear it, take it, and link it behind the one before.
unfoldable pub take_entry : ℕ → Fit → Fit
take_entry i f =
    let r1 = clear_entry_data i f.ring in
    let r2 = set_entry r1 i (record (r1.entries i) { is_used = true }) in
    let first = f.running_key_size == 0 in
    record {
      ring =
          if first
          then r2
          else set_entry r2 f.previous_link
              (record (r2.entries f.previous_link) { key_next_part_index = i });
      running_key_size = f.running_key_size + single_entry_key_max_size;
      previous_link = i;
      head = if first then pos i else f.head;
    }

-- `n` rounds are left from entry `i` on.
unfoldable pub fit_entries : ℕ → ℕ → ℕ → Fit → Fit
fit_entries zero i size f = f
fit_entries (suc n) i size f =
    let rest =
      fit_entries n (i + 1) size (if (f.ring.entries i).is_used then f else take_entry i f) in
    if ltb f.running_key_size size then rest else f

-- The loop that gives the entries of a key back that does not fit.
unfoldable pub release_entries : ℕ → ℕ → Keyring → Run Keyring
release_entries zero i r = hang
release_entries (suc fuel) i r =
    let following = (r.entries i).key_next_part_index in
    let r1 = clear_entry_data i r in
    let rest = release_entries fuel following r1 in
    if (following == 0) || leb total_entries following then ok r1 else rest

abbrev pub Indexed : Type 0
Indexed = Run (ℤ × Keyring)

-- With no free entry at all the release begins at the entry `(u32)-1`: a fault.
unfoldable pub release_from : ℤ → Keyring → Indexed
release_from (negsuc _) r = fault
release_from (pos i) r = do r1 ← release_entries (total_entries + 1) i r; ok (iosc_fail_alloc, r1)

unfoldable pub get_key_index_fit_size : ℕ → Keyring → Indexed
unfolding take_entry fit_entries release_entries release_from
get_key_index_fit_size size r =
    let f =
      fit_entries total_entries 0 size
        (record { ring = r; running_key_size = 0; previous_link = 0; head = negsuc 0 }) in
    if ltb f.running_key_size size then release_from f.head f.ring else ok (f.head, f.ring)

-- The result of the handle loop: a code, and the handle that goes through `keyHandle`.
abbrev pub Handled : Type 0
Handled = Run (ℤ × ℕ × Keyring)

-- A free handle is taken: with an index for its key, if it has one.
unfoldable pub take_handle : ℕ → ℕ → Keyring → Handled
take_handle h size r =
    let r1 = set_handle r h (record (r.handles h) { is_used = true }) in
    if size == 0
    then ok (ipc_success, h, set_handle r1 h (record (r1.handles h) { keyring_index = negsuc 0 }))
    else (do
      (index, r2) ← get_key_index_fit_size size r1
      (let r3 = set_handle r2 h (record (r2.handles h) { keyring_index = index }) in
          if lt_int index (pos 0)
          then ok (iosc_fail_alloc, h, set_handle r3 h (record (r3.handles h) { is_used = false }))
          else ok (ipc_success, h, r3)))

unfoldable pub find_handle : ℕ → ℕ → ℕ → Keyring → Handled
unfolding take_handle
find_handle zero h size r = ok (iosc_fail_alloc, h, r)
find_handle (suc n) h size r =
    let rest = find_handle n (h + 1) size r in
    if (r.handles h).is_used then rest else take_handle h size r

unfoldable pub get_handle_fit_size : ℕ → Keyring → Handled
unfolding find_handle
get_handle_fit_size size r = find_handle metadata_total_entries 0 size r
