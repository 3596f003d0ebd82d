-- ===== src/Iosc/SetData.antt =====
-- `IOSC_SetData` of kernel/source/crypto/iosc.c.
use star_struck.Base.{
  ℕ, zero, suc, ltb, ◌==◌, not, Option, none, some, ℤ, pos, negsuc, eq_int, Run, ok, hang, ◌>>=◌,
  ◌&&◌, to_u32, if◌then◌else◌,
}
use star_struck.Keyring.State.{
  Keyring, other, unknown2, ipc_success, iosc_invalid_objtype, iosc_fail_internal,
}
use star_struck.Keyring.Access.{get_key_types, get_key_metadata, set_key_metadata}
use star_struck.Iosc.Objects.{owns_key, left_with, iosc_eacces}
use star_struck.Iosc.Counters.{
  Counters, Board, Getter, boot2_get_version, boot2_get_unk1, boot2_get_unk2, nand_get_gen,
  boot2_update_version, boot2_update_unk1, boot2_update_unk2, nand_update_gen,
}

abbrev pub iosc_invalid_version : ℤ
iosc_invalid_version = negsuc 2008

abbrev pub keyring_const_ng_id : ℕ
keyring_const_ng_id = 1

abbrev pub keyring_const_boot2_version : ℕ
keyring_const_boot2_version = 7

abbrev pub keyring_const_boot2_unk1 : ℕ
keyring_const_boot2_unk1 = 8

abbrev pub keyring_const_boot2_unk2 : ℕ
keyring_const_boot2_unk2 = 9

abbrev pub keyring_const_nand_gen : ℕ
keyring_const_nand_gen = 10

-- The counter of a key handle: what gets it, and what raises it.
unfoldable pub select_counter : ℕ → Option (Getter × Getter)
select_counter h =
    if h == keyring_const_boot2_version
    then some (boot2_get_version, boot2_update_version)
    else if h == keyring_const_boot2_unk1
    then some (boot2_get_unk1, boot2_update_unk1)
    else if h == keyring_const_boot2_unk2
    then some (boot2_get_unk2, boot2_update_unk2)
    else if h == keyring_const_nand_gen
    then some (nand_get_gen, nand_update_gen)
    else none

-- The loop `while ((u32)getFunc() < value)`
unfoldable pub advance : ℕ → Getter → Getter → ℕ → Board → Counters → Run (ℤ × Counters)
advance zero getting updating value b c = hang
advance (suc fuel) getting updating value b c =
    let got = getting b c in
    let done = updating b got.1 in
    let rest = advance fuel getting updating value b done.1 in
    if not (ltb (to_u32 got.0) value)
    then ok (ipc_success, got.1)
    else if not (eq_int done.0 (pos 0))
    then ok (iosc_fail_internal, done.1)
    else rest

-- The last step, behind the loop.
unfoldable pub persist : ℕ → ℕ → Keyring → ℤ × Counters → ℤ × Keyring × Counters
unfolding set_key_metadata
persist h value r a =
    let s = set_key_metadata h value r in
    if not (eq_int a.0 ipc_success)
    then (a.0, r, a.1)
    else if not (eq_int s.0 (pos 0))
    then (iosc_fail_internal, s.1, a.1)
    else (ipc_success, s.1, a.1)

abbrev pub value_or_zero : Option ℕ → ℕ
value_or_zero none = 0
value_or_zero (some value) = value

-- `currentValue`, which is 0 where no value is read
unfoldable pub current_value : ℕ → Keyring → ℕ
unfolding get_key_metadata
current_value h r = value_or_zero (get_key_metadata h r).1

-- The counter of the key, moved to the value. `getFunc` is called at most `fuel` times.
unfoldable pub move_counter : ℕ → ℕ → ℕ → Keyring → Board → Counters → Run (ℤ × Counters)
move_counter fuel h value r b c =
    if ltb value (current_value h r)
    then ok (iosc_invalid_version, c)
    else elim (select_counter h) [
      | none ↦ ok (iosc_fail_internal, c)
      | some f ↦ advance fuel (f.0) (f.1) value b c
    ]

-- `IOSC_SetData_Inner`; the types of an invalid handle are those that its locals start with.
unfoldable pub set_data_inner :
    ℕ → ℕ → ℕ → Keyring → Board → Counters → Run (ℤ × Keyring × Counters)
set_data_inner fuel h value r b c =
    let kind = get_key_types (record { type = 0; subtype = 0 }) h r in
    let moved =
      if kind.subtype == unknown2 then move_counter fuel h value r b c else ok (ipc_success, c) in
    if h == keyring_const_ng_id
    then ok (iosc_eacces, r, c)
    else if not (kind.type == other)
    then ok (iosc_invalid_objtype, r, c)
    else (moved >>= λ a. ok (persist h value r a))

-- `IOSC_SetData`, of the process `pid`.
unfoldable pub set_data :
    ℤ → ℤ → ℕ → ℕ → ℕ → ℕ → Keyring → Board → Counters → Run (ℤ × Keyring × Counters)
set_data entered left fuel pid h value r b c =
    let inner = set_data_inner fuel h value r b c in
    if eq_int entered ipc_success && eq_int (owns_key pid h r) ipc_success
    then (inner >>= λ a. ok (left_with left a.0, a.1, a.2))
    else ok (left_with left iosc_eacces, r, c)
