-- ===== src/Resources/Register.antt =====
-- `GetPpcAccessRights` and `RegisterResourceManager` of kernel/source/messaging/resourceManager.c. A
-- string is the list of its characters; strncmp and memcmp are then the comparison of lists that
-- Strings.Compared relates to core/source/string.c. The result of `CheckMemoryPointer` is `checked`, the
-- process that calls `pid`, and the processes of the message queues `owners`.
use star_struck.Base.{
  ℕ, zero, suc, ◌+◌, ◌*◌, ◌/◌, ◌%◌, ◌^◌, leb, ◌==◌, not, ◌||◌, Bool, true, false, min, bit_xor,
  List, [], ◌∷◌, length, take, Option, some, ℤ, pos, negsuc, eq_int, update, if◌then◌else◌,
}
use star_struck.Strings.Compared.{compare_strings}
use star_struck.Messages.State.{max_message_queues}
use star_struck.Interrupts.State.{max_devices}

abbrev pub ipc_success : ℤ
ipc_success = pos 0

abbrev pub ipc_eacces : ℤ
ipc_eacces = negsuc 0

abbrev pub ipc_eexist : ℤ
ipc_eexist = negsuc 1

abbrev pub ipc_einval : ℤ
ipc_einval = negsuc 3

abbrev pub ipc_emax : ℤ
ipc_emax = negsuc 4

abbrev pub max_pathlen : ℕ
max_pathlen = 0x40

pub record ResourceManager : Type 0 where
  pub device_path : List ℕ
  pub path_length : ℕ
  pub queue : ℕ
  pub process_id : ℕ
  pub ppc_has_access_rights : ℕ

pub record HashTable : Type 0 where
  pub hash_table : ℕ → ℕ
  pub hash_table_salt : ℕ
  pub hash_table_count : ℕ

-- The managers, and those that the descriptors of the AES and the SHA engine belong to.
pub record Resources : Type 0 where
  pub managers : ℕ → ResourceManager
  pub aes_belongs_to : Option ℕ
  pub sha_belongs_to : Option ℕ

unfoldable pub salted : ℕ → List ℕ → ℕ
salted salt [] = salt
salted salt (x ∷ xs) = salted (bit_xor salt ((salt * 128 + x + salt / 2 ^ 5) % 2 ^ 32)) xs

-- The remainder is not looked at where the count is 0.
unfoldable pub get_ppc_access_rights : HashTable → List ℕ → ℕ
unfolding salted
get_ppc_access_rights t path =
    let salt = salted t.hash_table_salt path in
    let bit = t.hash_table (salt % t.hash_table_count) in
    if (t.hash_table_count == 0) || not (salt / 2 ^ bit % 2 == 0) then 1 else 0

-- `strncmp(a, b, MAX_PATHLEN - 1) == 0`
unfoldable pub same_path : List ℕ → List ℕ → Bool
unfolding compare_strings
same_path a b = eq_int (compare_strings (take 63 a) (take 63 b)) (pos 0)

abbrev pub is_empty : List ℕ → Bool
is_empty [] = true
is_empty (x ∷ xs) = false

-- How the loop ends: at the same path, at a free place, or behind the last one.
pub data Place : Type 0 where
  exists : Place
  free_at : ℕ → Place
  full : Place

unfoldable pub find_place : ℕ → ℕ → List ℕ → (ℕ → ResourceManager) → Place
find_place zero i path m = full
find_place (suc n) i path m =
    let rest = find_place n (i + 1) path m in
    if same_path path (m i).device_path
    then exists
    else if is_empty (m i).device_path
    then free_at i
    else rest

abbrev aes_device_name : List ℕ
aes_device_name = 0x2f ∷ 0x64 ∷ 0x65 ∷ 0x76 ∷ 0x2f ∷ 0x61 ∷ 0x65 ∷ 0x73 ∷ []

abbrev sha_device_name : List ℕ
sha_device_name = 0x2f ∷ 0x64 ∷ 0x65 ∷ 0x76 ∷ 0x2f ∷ 0x73 ∷ 0x68 ∷ 0x61 ∷ []

-- `memcmp` of a path and a device name with its end, which is 0 only where they are the same.
abbrev belongs : List ℕ → List ℕ → ℕ → Option ℕ → Option ℕ
belongs name path i old = if eq_int (compare_strings path name) (pos 0) then some i else old

unfoldable pub registered : HashTable → ℕ → List ℕ → ℕ → ℕ → Resources → Resources
registered t pid path q i r =
    let m : ResourceManager = record {
      device_path = path;
      path_length = min (length path) max_pathlen;
      queue = q;
      process_id = pid;
      ppc_has_access_rights = get_ppc_access_rights t path;
    } in
    record {
      managers = update r.managers i m;
      aes_belongs_to = belongs aes_device_name path i r.aes_belongs_to;
      sha_belongs_to = belongs sha_device_name path i r.sha_belongs_to;
    }

abbrev pub registered_at : HashTable → ℕ → List ℕ → ℕ → Resources → Place → ℤ × Resources
registered_at t pid path q r exists = (ipc_eexist, r)
registered_at t pid path q r full = (ipc_emax, r)
registered_at t pid path q r (free_at i) = (ipc_success, registered t pid path q i r)

abbrev pub register_for : HashTable → (ℕ → ℕ) → ℕ → List ℕ → ℤ → Resources → ℤ × Resources
register_for t owners pid path (negsuc q) r = (ipc_einval, r)
register_for t owners pid path (pos q) r =
    if leb max_message_queues q
    then (ipc_einval, r)
    else if not (owners q == pid)
    then (ipc_eacces, r)
    else registered_at t pid path q r (find_place max_devices 0 path r.managers)

-- `RegisterResourceManager`
unfoldable pub register_resource_manager :
    HashTable → (ℕ → ℕ) → ℤ → ℕ → List ℕ → ℤ → Resources → ℤ × Resources
register_resource_manager t owners checked pid path queueid r =
    if leb max_pathlen (min (length path) max_pathlen)
    then (ipc_einval, r)
    else if not (eq_int checked (pos 0))
    then (ipc_einval, r)
    else register_for t owners pid path queueid r
