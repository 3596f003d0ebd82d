-- ===== src/Keyring/State.antt =====
-- The data of kernel/source/crypto/keyring.h. A key handle is an index of the metadata. Bytes are
-- only moved, so a byte is any number.
use star_struck.Base.{ℕ, Bool, false, List, ℤ, pos, negsuc, leb, not, ◌||◌, update, replicate}

abbrev pub total_entries : ℕ
total_entries = 64

abbrev pub metadata_total_entries : ℕ
metadata_total_entries = 32

abbrev pub single_entry_key_max_size : ℕ
single_entry_key_max_size = 0x20

abbrev pub rsa4096_rootkey : ℕ
rsa4096_rootkey = 0x0fff_ffff

abbrev pub iosc_einval : ℤ
iosc_einval = negsuc 2001

abbrev pub iosc_invalid_objtype : ℤ
iosc_invalid_objtype = negsuc 2004

abbrev pub iosc_fail_internal : ℤ
iosc_fail_internal = negsuc 2011

abbrev pub iosc_fail_alloc : ℤ
iosc_fail_alloc = negsuc 2012

abbrev pub ipc_success : ℤ
ipc_success = pos 0

-- The key types and subtypes are 4-bit fields.
abbrev pub private_key : ℕ
private_key = 0

abbrev pub public_key : ℕ
public_key = 1

abbrev pub public_and_private_key : ℕ
public_and_private_key = 2

abbrev pub other : ℕ
other = 3

abbrev pub aes_128 : ℕ
aes_128 = 0

abbrev pub hmac : ℕ
hmac = 1

abbrev pub rsa_2048 : ℕ
rsa_2048 = 2

abbrev pub rsa_4096 : ℕ
rsa_4096 = 3

abbrev pub ecc_233 : ℕ
ecc_233 = 4

abbrev pub unknown1 : ℕ
unknown1 = 5

abbrev pub unknown2 : ℕ
unknown2 = 6

pub record KeyKind : Type 0 where
  pub type : ℕ
  pub subtype : ℕ

-- `key` has the 32 bytes of the entry.
pub record KeyringEntry : Type 0 where
  pub is_used : Bool
  pub key : List ℕ
  pub key_next_part_index : ℕ

pub record KeyringMetadata : Type 0 where
  pub is_used : Bool
  pub kind : KeyKind
  pub owner_process : ℕ
  pub zeroes : ℕ
  pub metadata : ℕ
  pub keyring_index : ℤ

pub record Keyring : Type 0 where
  pub entries : ℕ → KeyringEntry
  pub handles : ℕ → KeyringMetadata

abbrev pub set_entry : Keyring → ℕ → KeyringEntry → Keyring
set_entry r i e = record r { entries = update r.entries i e }

abbrev pub set_handle : Keyring → ℕ → KeyringMetadata → Keyring
set_handle r h m = record r { handles = update r.handles h m }

abbrev pub cleared_entry : KeyringEntry
cleared_entry = record {
  is_used = false;
  key = replicate single_entry_key_max_size 0;
  key_next_part_index = 0;
}

-- `Keyring_ClearEntryData`
abbrev pub clear_entry_data : ℕ → Keyring → Keyring
clear_entry_data i r = set_entry r i cleared_entry

-- The test before every access through a handle.
abbrev pub is_invalid : ℕ → Keyring → Bool
is_invalid h r = leb metadata_total_entries h || not ((r.handles h).is_used)
