-- ===== src/Keyring/Bytes.antt =====
-- `Keyring_SetKey` and `Keyring_GetKey` of kernel/source/crypto/keyring.c.
use star_struck.Base.{
  ℕ, zero, suc, ◌+◌, ◌-◌, ℤ, pos, negsuc, Bool, not, ◌||◌, List, [], ◌++◌, take, drop, leb, ◌==◌,
  if◌then◌else◌, Run, ok, hang,
}
use star_struck.Keyring.State.{
  Keyring, total_entries, single_entry_key_max_size, iosc_einval, ipc_success, set_entry,
  is_invalid,
}

-- `min(keySize - bytesCopied, 32)`
abbrev pub bytes_to_copy : ℕ → ℕ → ℕ
bytes_to_copy size copied =
    if leb (size - copied) single_entry_key_max_size
    then size - copied
    else single_entry_key_max_size

-- `0 > entryIndex || entryIndex >= KEYRING_TOTAL_ENTRIES || !IsUsed`, at an index that is not
-- negative.
abbrev pub bad_entry : ℕ → Keyring → Bool
bad_entry i r = leb total_entries i || not ((r.entries i).is_used)

-- `memcpy(entry.Key, data + copied, n)`
unfoldable pub write_part : ℕ → ℕ → List ℕ → ℕ → Keyring → Keyring
write_part i n bytes copied r =
    let e = r.entries i in
    set_entry r i (record e { key = take n (drop copied bytes) ++ drop n e.key })

unfoldable pub set_loop : ℕ → List ℕ → ℕ → ℕ → ℕ → Keyring → Run (ℤ × Keyring)
unfolding write_part
set_loop zero bytes size copied i r = hang
set_loop (suc fuel) bytes size copied i r =
    let n = bytes_to_copy size copied in
    let r1 = write_part i n bytes copied r in
    let following = (r1.entries i).key_next_part_index in
    let rest = set_loop fuel bytes size (copied + n) following r1 in
    if bad_entry i r
    then ok (iosc_einval, r)
    else if following == 0
    then ok (ipc_success, r1)
    else rest

-- A chain has at most as many parts as there are entries.
abbrev pub chain_fuel : ℕ
chain_fuel = 65

unfoldable pub set_from : ℤ → List ℕ → ℕ → Keyring → Run (ℤ × Keyring)
unfolding set_loop
set_from (negsuc _) bytes size r = ok (iosc_einval, r)
set_from (pos i) bytes size r = set_loop chain_fuel bytes size 0 i r

unfoldable pub set_key : ℕ → List ℕ → ℕ → Keyring → Run (ℤ × Keyring)
unfolding set_from
set_key h bytes size r =
    if is_invalid h r
    then ok (iosc_einval, r)
    else set_from ((r.handles h).keyring_index) bytes size r

-- The bytes that `GetKey` has written so far are its last argument.
unfoldable pub get_loop : ℕ → ℕ → ℕ → ℕ → Keyring → List ℕ → Run (ℤ × List ℕ)
get_loop zero size copied i r out = hang
get_loop (suc fuel) size copied i r out =
    let n = bytes_to_copy size copied in
    let e = r.entries i in
    let rest = get_loop fuel size (copied + n) e.key_next_part_index r (out ++ take n e.key) in
    if bad_entry i r
    then ok (iosc_einval, out)
    else if e.key_next_part_index == 0
    then ok (ipc_success, out ++ take n e.key)
    else rest

unfoldable pub get_from : ℤ → ℕ → Keyring → Run (ℤ × List ℕ)
unfolding get_loop
get_from (negsuc _) size r = ok (iosc_einval, [])
get_from (pos i) size r = get_loop chain_fuel size 0 i r []

unfoldable pub get_key : ℕ → ℕ → Keyring → Run (ℤ × List ℕ)
unfolding get_from
get_key h size r =
    if is_invalid h r then ok (iosc_einval, []) else get_from ((r.handles h).keyring_index) size r
