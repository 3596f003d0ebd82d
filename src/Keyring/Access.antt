-- ===== src/Keyring/Access.antt =====
-- The accessors of kernel/source/crypto/keyring.c and the sizes of keys and signatures. A getter
-- returns its code and what goes through its pointer, if anything does.
use star_struck.Base.{ℕ, ℤ, eq_int, Bool, not, ◌||◌, Option, none, some, ◌==◌, if◌then◌else◌}
use star_struck.Keyring.State.{
  Keyring, KeyKind, KeyringMetadata, private_key, public_key, public_and_private_key, other,
  aes_128, hmac, rsa_2048, rsa_4096, ecc_233, unknown1, unknown2, rsa4096_rootkey, iosc_einval,
  iosc_invalid_objtype, iosc_fail_internal, ipc_success, set_handle, is_invalid,
}

abbrev pub Got : Type 0 → Type 0
Got A = ℤ × Option A

-- A field of a valid handle.
abbrev get_field : {A : Type 0} → (KeyringMetadata → A) → ℕ → Keyring → Got A
get_field field h r =
    if is_invalid h r then (iosc_einval, none) else (ipc_success, some (field (r.handles h)))

abbrev set_field : (KeyringMetadata → KeyringMetadata) → ℕ → Keyring → ℤ × Keyring
set_field change h r =
    if is_invalid h r
    then (iosc_einval, r)
    else (ipc_success, set_handle r h (change (r.handles h)))

unfoldable pub set_key_metadata : ℕ → ℕ → Keyring → ℤ × Keyring
set_key_metadata h value r = set_field (λ m. record m { metadata = value }) h r

unfoldable pub get_key_metadata : ℕ → Keyring → Got ℕ
get_key_metadata h r = get_field (λ m. m.metadata) h r

unfoldable pub set_key_kind : ℕ → KeyKind → Keyring → ℤ × Keyring
set_key_kind h value r = set_field (λ m. record m { kind = value }) h r

unfoldable pub get_key_kind : ℕ → Keyring → Got KeyKind
get_key_kind h r = get_field (λ m. m.kind) h r

unfoldable pub set_key_owner_process : ℕ → ℕ → Keyring → ℤ × Keyring
set_key_owner_process h value r = set_field (λ m. record m { owner_process = value }) h r

unfoldable pub get_key_owner_process : ℕ → Keyring → Got ℕ
get_key_owner_process h r = get_field (λ m. m.owner_process) h r

unfoldable pub set_key_zeroes : ℕ → ℕ → Keyring → ℤ × Keyring
set_key_zeroes h value r = set_field (λ m. record m { zeroes = value }) h r

unfoldable pub get_key_zeroes : ℕ → Keyring → Got ℕ
get_key_zeroes h r = get_field (λ m. m.zeroes) h r

-- The types of a key. Of an invalid handle they are what the stack holds, `junk`.
unfoldable pub get_key_types : KeyKind → ℕ → Keyring → KeyKind
unfolding get_key_kind
get_key_types junk h r =
    if h == rsa4096_rootkey
    then record { type = public_key; subtype = rsa_4096 }
    else elim ((get_key_kind h r).1) [ none ↦ junk | some kind ↦ kind ]

unfoldable pub get_key_metadata_if_others : KeyKind → ℕ → Keyring → Got ℕ
unfolding get_key_types get_key_metadata
get_key_metadata_if_others junk h r =
    let got = get_key_metadata h r in
    if not ((get_key_types junk h r).type == other)
    then (iosc_invalid_objtype, none)
    else if not (eq_int got.0 ipc_success)
    then (iosc_fail_internal, none)
    else got

abbrev pub is_any_private : KeyKind → Bool
is_any_private kind = (kind.type == private_key) || (kind.type == public_and_private_key)

unfoldable pub set_key_zeroes_if_any_private : KeyKind → ℕ → ℕ → Keyring → ℤ × Keyring
unfolding get_key_types set_key_zeroes
set_key_zeroes_if_any_private junk h value r =
    if is_any_private (get_key_types junk h r)
    then set_key_zeroes h value r
    else (iosc_invalid_objtype, r)

unfoldable pub get_key_zeroes_if_any_private : KeyKind → ℕ → Keyring → Got ℕ
unfolding get_key_types get_key_zeroes
get_key_zeroes_if_any_private junk h r =
    if is_any_private (get_key_types junk h r)
    then get_key_zeroes h r
    else (iosc_invalid_objtype, none)

abbrev sized : ℕ → Got ℕ
sized n = (ipc_success, some n)

abbrev no_size : Got ℕ
no_size = (iosc_einval, none)

unfoldable pub get_key_size_from_type : ℕ → ℕ → Got ℕ
get_key_size_from_type type subtype =
    if type == public_key
    then (if subtype == rsa_4096
        then sized 0x200
        else if subtype == rsa_2048
        then sized 0x100
        else if subtype == ecc_233
        then sized 0x3c
        else no_size)
    else if type == private_key
    then (if subtype == hmac
        then sized 0x14
        else if subtype == aes_128
        then sized 0x10
        else if subtype == ecc_233
        then sized 0x1e
        else no_size)
    else if type == public_and_private_key
    then (if not (subtype == ecc_233) then no_size else sized 0x5a)
    else if type == other
    then (if (subtype == unknown1) || (subtype == unknown2) then sized 0 else no_size)
    else no_size

unfoldable pub find_key_size : KeyKind → ℕ → Keyring → Got ℕ
unfolding get_key_types get_key_size_from_type
find_key_size junk h r =
    let kind = get_key_types junk h r in
    let got = get_key_size_from_type kind.type kind.subtype in
    if h == rsa4096_rootkey
    then sized 0x200
    else if eq_int got.0 ipc_success
    then got
    else (iosc_fail_internal, none)

unfoldable pub get_signature_size : KeyKind → ℕ → Keyring → Got ℕ
unfolding get_key_types
get_signature_size junk h r =
    let kind = get_key_types junk h r in
    let subtype = kind.subtype in
    if kind.type == public_key
    then (if subtype == rsa_4096
        then sized 0x200
        else if subtype == rsa_2048
        then sized 0x100
        else if subtype == ecc_233
        then sized 0x3c
        else no_size)
    else if kind.type == private_key
    then (if subtype == hmac
        then sized 0x14
        else if subtype == ecc_233
        then sized 0x3c
        else no_size)
    else if kind.type == public_and_private_key
    then (if not (subtype == ecc_233) then no_size else sized 0x3c)
    else no_size
