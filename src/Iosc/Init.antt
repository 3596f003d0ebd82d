-- ===== src/Iosc/Init.antt =====
-- `Keyring_Init` of kernel/source/crypto/keyring.c, `SEEPROM_GetKoreanCommonKey` of
-- kernel/source/crypto/seeprom.c, and `IOSC_Init` of kernel/source/crypto/iosc.c. What the stack holds
-- where a read of the EEPROM fails, `junk`, is a parameter.
use star_struck.Base.{
  ℕ, zero, suc, ◌+◌, ◌/◌, true, false, List, [], ◌∷◌, ◌++◌, drop, length, replicate, bit_xor, ℤ,
  pos, eq_int, to_u32, Run, ok, ◌>>=◌, if◌then◌else◌,
}
use star_struck.Keyring.State.{
  Keyring, KeyKind, total_entries, metadata_total_entries, set_entry, set_handle, private_key,
  other, aes_128, hmac, ecc_233, unknown1, unknown2, ipc_success, rsa4096_rootkey,
}
use star_struck.Keyring.Alloc.{get_key_index_fit_size}
use star_struck.Keyring.Access.{
  set_key_metadata, set_key_zeroes_if_any_private, set_key_owner_process,
}
use star_struck.Keyring.Bytes.{set_key}
use star_struck.Seeprom.Transfer.{read_buffer}
use star_struck.Iosc.Counters.{
  Counters, Board, boot2_get_version, boot2_get_unk1, boot2_get_unk2, nand_get_gen,
}
use star_struck.Iosc.Otp.{
  Keys, get_ng_id, get_rng_seed, get_keys, otp_commonkey_size, otp_ngprivkey_size, otp_nandkey_size,
  otp_nandhmac_size, otp_rngseed_size,
}

abbrev kind_of : ℕ → ℕ → KeyKind
kind_of type subtype = record { type = type; subtype = subtype }

-- `Keyring_Init_WithKey`
unfoldable pub init_with_key : ℕ → ℕ → ℕ → List ℕ → ℕ → Keyring → Run Keyring
init_with_key h type subtype bytes size r = do
  let r1 = set_handle r h (record (r.handles h) { is_used = true; kind = kind_of type subtype })
  a ← get_key_index_fit_size size r1
  let r2 = set_handle (a.1) h (record ((a.1).handles h) { keyring_index = a.0 })
  s ← set_key h bytes size r2
  ok s.1

-- `Keyring_Init_WithMetadata`
unfoldable pub init_with_metadata : ℕ → ℕ → ℕ → ℕ → Keyring → Keyring
init_with_metadata h type subtype metadata r =
    let m = record (r.handles h) {
      is_used = true;
      kind = kind_of type subtype;
      keyring_index = pos 0;
    } in
    (set_key_metadata h metadata (set_handle r h m)).1

-- The loops that mark all as unused, `n` rounds left from `i` on.
unfoldable pub mark_handles : ℕ → ℕ → Keyring → Keyring
mark_handles zero i r = r
mark_handles (suc n) i r =
    mark_handles n (i + 1)
      (set_handle r i (record (r.handles i) { is_used = false; kind = kind_of 0xf 0xf }))

unfoldable pub mark_entries : ℕ → ℕ → Keyring → Keyring
mark_entries zero i r = r
mark_entries (suc n) i r =
    mark_entries n (i + 1)
      (set_entry r i (record (r.entries i) { is_used = false; key_next_part_index = 0 }))

-- `SEEPROM_GetKoreanCommonKey`
unfoldable pub get_korean_common_key : List ℕ → Board → Counters → List ℕ × Counters
unfolding read_buffer
get_korean_common_key junk b c =
    let got = read_buffer b.miso 0x3a (otp_commonkey_size / 2) c.pins in
    if b.otp_is_set
    then (got.1 ++ drop (length got.1) junk, record c { pins = got.2 })
    else (replicate otp_commonkey_size 0, c)

abbrev xor_bytes : List ℕ → List ℕ → List ℕ
xor_bytes [] ys = []
xor_bytes (x ∷ xs) [] = []
xor_bytes (x ∷ xs) (y ∷ ys) = bit_xor x y ∷ xor_bytes xs ys

abbrev sd_pad : List ℕ
sd_pad =
    0x40 ∷ 0xe5 ∷ 0x93 ∷ 0xfa ∷ 0xbf ∷ 0xe7 ∷ 0xb8 ∷ 0xec ∷ 0xe7 ∷ 0x63 ∷ 0x1d ∷ 0x08 ∷ 0xcc ∷ 0x43
    ∷ 0x0f ∷ 0xaa ∷ []

-- The keys that `Keyring_Init` makes before it reads the counters, and the others.
unfoldable pub init_first : ℕ → Keys → Keyring → Run Keyring
unfolding init_with_key init_with_metadata mark_handles mark_entries
init_first ng_id keys r = do
  let r0 = mark_entries total_entries 0 (mark_handles metadata_total_entries 0 r)
  r1 ←
      init_with_key 0 private_key ecc_233 keys.ng_priv_key otp_ngprivkey_size
        (init_with_metadata 1 other unknown1 ng_id r0)
  r2 ← init_with_key 2 private_key aes_128 keys.nand_key otp_rngseed_size r1
  r3 ← init_with_key 3 private_key hmac keys.nand_hmac otp_nandhmac_size r2
  init_with_key 4 private_key aes_128 keys.common_key otp_commonkey_size r3

unfoldable pub init_last : List ℕ → List ℕ → List ℕ → Keyring → Run Keyring
unfolding init_with_key
init_last rng_seed common_key eeprom_key r = do
  r1 ← init_with_key 5 private_key aes_128 rng_seed otp_rngseed_size r
  r2 ← init_with_key 6 private_key aes_128 (xor_bytes sd_pad common_key) otp_nandkey_size r1
  init_with_key 11 private_key aes_128 eeprom_key otp_commonkey_size r2

-- The keys of the counters.
unfoldable pub init_counters : Board → Counters → Keyring → Keyring × Counters
unfolding init_with_metadata
init_counters b c r =
    let version = boot2_get_version b c in
    let unk1 = boot2_get_unk1 b version.1 in
    let unk2 = boot2_get_unk2 b unk1.1 in
    let gen = nand_get_gen b unk2.1 in
    let r1 = init_with_metadata 7 other unknown2 (to_u32 version.0) r in
    let r2 = init_with_metadata 8 other unknown2 (to_u32 unk1.0) r1 in
    let r3 = init_with_metadata 9 other unknown2 (to_u32 unk2.0) r2 in
    (init_with_metadata 10 other unknown2 (to_u32 gen.0) r3, gen.1)

unfoldable pub keyring_init :
    (ℕ → ℕ) → List ℕ → Board → Counters → Keyring → Run (Keyring × Counters)
unfolding init_first init_last init_counters
keyring_init word junk b c r = do
  let korean = get_korean_common_key junk b c
  let keys = get_keys b.otp_is_set word
  r1 ← init_first (get_ng_id b.otp_is_set word) keys r
  let made = init_counters b korean.1 r1
  r2 ← init_last (get_rng_seed b.otp_is_set word) keys.common_key korean.0 (made.0)
  ok (r2, made.1)

-- A loop of `IOSC_Init` over a table of handles and values, up to the first call that fails.
abbrev set_all : (ℕ → ℕ → Keyring → ℤ × Keyring) → List (ℕ × ℕ) → ℤ → Keyring → ℤ × Keyring
set_all set [] code r = (code, r)
set_all set (x ∷ xs) code r =
    let s = set (x.0) (x.1) r in
    if eq_int code ipc_success then set_all set xs s.0 s.1 else (code, r)

abbrev handles_and_owners : List (ℕ × ℕ)
handles_and_owners =
    (0, 3)
    ∷ (1, rsa4096_rootkey)
    ∷ (2, 5)
    ∷ (3, 5)
    ∷ (4, 3)
    ∷ (7, 3)
    ∷ (8, 3)
    ∷ (9, 3)
    ∷ (10, 5)
    ∷ (5, 3)
    ∷ (6, 3)
    ∷ (11, 3)
    ∷ []

abbrev handles_and_zeroes : List (ℕ × ℕ)
handles_and_zeroes = (0, 0) ∷ (2, 0) ∷ (3, 0) ∷ (4, 0) ∷ (11, 0) ∷ (5, 0) ∷ (6, 0) ∷ []

-- The loops of `IOSC_Init`; `stale` is the kind that a getter leaves for an invalid handle.
unfoldable pub init_owners : KeyKind → Keyring → ℤ × Keyring
init_owners stale r =
    let zeroed = set_all (set_key_zeroes_if_any_private stale) handles_and_zeroes ipc_success r in
    set_all set_key_owner_process handles_and_owners ipc_success zeroed.1

unfoldable pub iosc_init :
    KeyKind → (ℕ → ℕ) → List ℕ → Board → Counters → Keyring → Run (ℤ × Keyring × Counters)
unfolding keyring_init init_owners
iosc_init stale word junk b c r = do
  k ← keyring_init word junk b c r
  let s = init_owners stale (k.0)
  ok (s.0, s.1, k.1)
