-- ===== src/Iosc/Objects.antt =====
-- The key objects of kernel/source/crypto/iosc.c. The results of `CheckMemoryPointer` and those of the
-- message queue that lets one thread in at a time are parameters: `checked`, and `entered` and `left`.
-- What other threads do before a call is let in is in the key store that it starts with.
use star_struck.Base.{
  ℕ, zero, suc, ◌+◌, ◌/◌, ◌%◌, ◌^◌, ltb, leb, ◌==◌, ◌||◌, ◌&&◌, not, false, if◌then◌else◌, ℤ, pos,
  negsuc, eq_int, Option, none, some, Run, ok, fault, hang, ◌>>=◌,
}
use star_struck.Keyring.State.{
  Keyring, KeyKind, total_entries, rsa4096_rootkey, iosc_einval, iosc_fail_alloc, ipc_success,
  set_handle, clear_entry_data, is_invalid,
}
use star_struck.Keyring.Alloc.{get_handle_fit_size}
use star_struck.Keyring.Access.{
  Got, set_key_kind, set_key_owner_process, get_key_owner_process, get_key_size_from_type,
  find_key_size, get_signature_size, get_key_metadata_if_others,
}

abbrev pub iosc_eacces : ℤ
iosc_eacces = negsuc 1999

abbrev pub custom_start_index : ℕ
custom_start_index = 12

-- `IOSC_BEGIN_SAFETY_WRAPPER` and `IOSC_END_SAFETY_WRAPPER` around a body, with the code at the end. The
-- stack is not modelled.
abbrev pub left_with : ℤ → ℤ → ℤ
left_with left code =
    if not (eq_int left ipc_success) && eq_int code ipc_success then iosc_eacces else code

-- `IOSC_CheckCurrentProcessOwnsKey`, of the process `pid`
unfoldable pub owns_key : ℕ → ℕ → Keyring → ℤ
unfolding get_key_owner_process
owns_key pid h r =
    if h == rsa4096_rootkey then ipc_success else elim ((get_key_owner_process h r).1) [
      | none ↦ (get_key_owner_process h r).0
      | some owners ↦ if owners / 2 ^ (pid % 0x100) % 2 == 0 then iosc_eacces else ipc_success
    ]

-- The rest of `IOSC_SetNewKeyKind`, behind the allocation.
abbrev pub kind_set : KeyKind → ℤ × ℕ × Keyring → ℤ × Option ℕ × Keyring
kind_set kind a =
    let s = set_key_kind a.1 kind a.2 in
    if not (eq_int a.0 ipc_success)
    then (iosc_fail_alloc, none, a.2)
    else if not (eq_int s.0 ipc_success)
    then (iosc_fail_alloc, some a.1, s.1)
    else (ipc_success, some a.1, s.1)

abbrev pub kind_for_size : KeyKind → Keyring → Option ℕ → Run (ℤ × Option ℕ × Keyring)
kind_for_size kind r none = ok (iosc_fail_alloc, none, r)
kind_for_size kind r (some size) = do a ← get_handle_fit_size size r; ok (kind_set kind a)

-- `IOSC_SetNewKeyKind`: the code, the handle, where one is written, and the key store. The type and the
-- subtype are fields of 4 bits.
unfoldable pub set_new_key_kind : ℕ → ℕ → Keyring → Run (ℤ × Option ℕ × Keyring)
set_new_key_kind type subtype r =
    kind_for_size (record { type = type % 16; subtype = subtype % 16 }) r
      (get_key_size_from_type type subtype).1

-- The loop of `IOSC_DeleteKeyringEntry`, from entry `i` on. A link of 2^15 or more is negative as an
-- `s16`, and the access is then outside of the table.
unfoldable pub delete_entries : ℕ → ℕ → Keyring → Run (ℤ × Keyring)
delete_entries zero i r = hang
delete_entries (suc fuel) i r =
    let following = (r.entries i).key_next_part_index in
    let r1 = clear_entry_data i r in
    let rest = delete_entries fuel following r1 in
    if leb total_entries i
    then ok (ipc_success, r)
    else if not ((r.entries i).is_used)
    then ok (iosc_einval, r)
    else if following == 0
    then ok (ipc_success, r1)
    else if leb (2 ^ 15) following
    then fault
    else rest

-- The handle is free before its entries are looked at.
abbrev pub free_handle : ℕ → Keyring → Keyring
free_handle h r = set_handle r h (record (r.handles h) { is_used = false })

abbrev pub delete_from : ℤ → Keyring → Run (ℤ × Keyring)
delete_from (negsuc zero) r = ok (ipc_success, r)
delete_from (negsuc (suc n)) r = fault
delete_from (pos i) r =
    if leb total_entries i then ok (iosc_einval, r) else delete_entries (total_entries + 1) i r

unfoldable pub delete_keyring_entry : ℕ → Keyring → Run (ℤ × Keyring)
delete_keyring_entry h r =
    if is_invalid h r
    then ok (iosc_einval, r)
    else delete_from ((r.handles h).keyring_index) (free_handle h r)

unfoldable pub delete_custom_key : ℕ → Keyring → Run (ℤ × Keyring)
delete_custom_key h r =
    if ltb h custom_start_index || (h == rsa4096_rootkey) then ok (iosc_eacces, r) else (do
      d ← delete_keyring_entry h r
      ok ((if eq_int d.0 ipc_success then ipc_success else iosc_fail_alloc), d.1))

-- The body of `IOSC_CreateObject`.
unfoldable pub new_object : ℕ → ℕ → ℕ → Keyring → Run (ℤ × Option ℕ × Keyring)
new_object pid type subtype r = do
  a ← set_new_key_kind type subtype r
  elim (a.1) [
    | none ↦ ok a
    | some h ↦
        let s = set_key_owner_process h (2 ^ (pid % 0x100) % 2 ^ 32) a.2 in
        if eq_int a.0 ipc_success then ok (s.0, some h, s.1) else ok a
  ]

unfoldable pub create_object : ℤ → ℤ → ℤ → ℕ → ℕ → ℕ → Keyring → Run (ℤ × Option ℕ × Keyring)
create_object checked entered left pid type subtype r =
    let body =
      if eq_int checked ipc_success then new_object pid type subtype r else ok (checked, none, r) in
    if eq_int entered ipc_success
    then (body >>= λ a. ok (left_with left a.0, a.1, a.2))
    else ok (left_with left iosc_eacces, none, r)

unfoldable pub delete_object : ℤ → ℤ → ℕ → ℕ → Keyring → Run (ℤ × Keyring)
delete_object entered left pid h r =
    let deleted = delete_custom_key h r in
    if eq_int entered ipc_success && eq_int (owns_key pid h r) ipc_success
    then (deleted >>= λ d. ok (left_with left d.0, d.1))
    else ok (left_with left iosc_eacces, r)

-- A call that reads: its code, and what goes through its pointer.
abbrev pub reading : ℤ → ℤ → Got ℕ → Got ℕ
reading entered left body =
    let r = if eq_int entered ipc_success then body else (iosc_eacces, none) in
    (left_with left r.0, r.1)

unfoldable pub get_data : KeyKind → ℤ → ℤ → ℤ → ℕ → ℕ → Keyring → Got ℕ
get_data junk checked entered left pid h r =
    let custom = leb custom_start_index h && not (h == rsa4096_rootkey) in
    reading entered left (
      if not (eq_int checked ipc_success)
      then (checked, none)
      else if custom && not (eq_int (owns_key pid h r) ipc_success)
      then (iosc_eacces, none)
      else get_key_metadata_if_others junk h r)

-- The body of `IOSC_GetKeySize` and `IOSC_GetSignatureSize`.
abbrev pub owned_size : ℤ → ℕ → ℕ → Keyring → Got ℕ → Got ℕ
owned_size checked pid h r size =
    if not (eq_int (owns_key pid h r) ipc_success)
    then (iosc_eacces, none)
    else if eq_int checked ipc_success
    then size
    else (checked, none)

unfoldable pub get_key_size : KeyKind → ℤ → ℤ → ℤ → ℕ → ℕ → Keyring → Got ℕ
get_key_size junk checked entered left pid h r =
    reading entered left (owned_size checked pid h r (find_key_size junk h r))

unfoldable pub get_object_signature_size : KeyKind → ℤ → ℤ → ℤ → ℕ → ℕ → Keyring → Got ℕ
get_object_signature_size junk checked entered left pid h r =
    reading entered left (owned_size checked pid h r (get_signature_size junk h r))
