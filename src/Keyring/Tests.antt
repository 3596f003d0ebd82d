-- ===== src/Keyring/Tests.antt =====
-- Runs of the theorems on kernel/source/crypto/keyring.c on small key stores.
use star_struck.Base.{
  ℕ, ◌≡◌, refl, Bool, true, false, ◌==◌, ◌||◌, pos, List, replicate, if◌then◌else◌, arith, ok,
}
use star_struck.Keyring.State.{Keyring, KeyringEntry, KeyringMetadata, ipc_success}
use star_struck.Keyring.Alloc.{get_handle_fit_size}
use star_struck.Keyring.Bytes.{set_key, get_key}
use star_struck.Keyring.Entries.{free_entries}
use star_struck.Keyring.Stored.{get_handle_fit_size-get_key}

abbrev entry : Bool → ℕ → KeyringEntry
entry used following = record {
  is_used = used;
  key = replicate 32 0;
  key_next_part_index = following;
}

abbrev handle : Bool → KeyringMetadata
handle used = record {
  is_used = used;
  kind = record { type = 0; subtype = 0 };
  owner_process = 0;
  zeroes = 0;
  metadata = 0;
  keyring_index = pos 3;
}

-- Handle 0 has a key in the entries 3 and 5; all else is free.
abbrev store : Keyring
store = record {
  entries = λ j. entry ((j == 3) || (j == 5)) (if j == 3 then 5 else 0);
  handles = λ h. handle (h == 0);
}

abbrev full_store : Keyring
full_store = record { entries = λ j. entry true 0; handles = λ h. handle false }

abbrev key : List ℕ
key = replicate 40 9

get_handle_fit_size-get_key_example :
    (g s : Keyring) × (get_handle_fit_size 40 store ≡ ok (ipc_success, 1, g))
    × (set_key 1 key 40 g ≡ ok (ipc_success, s))
    × (get_key 1 40 s ≡ ok (ipc_success, key))
    × ((j : ℕ) → (store.entries j).is_used ≡ true → s.entries j ≡ store.entries j)
unfolding free_entries
get_handle_fit_size-get_key_example =
    get_handle_fit_size-get_key store 1 key (omega arith) (omega arith) (omega arith) refl
      (λ j lt. ground (arith, lt))
