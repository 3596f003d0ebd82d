-- ===== src/Iosc/Tests.antt =====
-- Runs of the theorems on kernel/source/crypto/iosc.c.
use star_struck.Base.{
  ℕ, ◌≡◌, ◌≢◌, refl, inl, inr, true, false, [], ltb, ◌==◌, ◌||◌, replicate, pos, some, ok, hang,
  if◌then◌else◌, arith,
}
use star_struck.Keyring.State.{Keyring, KeyringEntry, KeyringMetadata, ipc_success}
use star_struck.Keyring.Entries.{free_entries}
use star_struck.Keyring.Access.{get_key_size_from_type}
use star_struck.Seeprom.Transfer.{Miso, read_word}
use star_struck.Seeprom.Boot2.{get_boot2_field, consider_boot2}
use star_struck.Iosc.Objects.{owns_key, create_object, delete_object, delete_keyring_entry}
use star_struck.Iosc.Counters.{Counters, Board, boot2_get_version, boot2_update_version}
use star_struck.Iosc.SetData.{set_data, select_counter}
use star_struck.Iosc.Ended.{delete_keyring_entry-ends}
use star_struck.Iosc.Init.{iosc_init}
use star_struck.Iosc.Started.{iosc_init-create_object}
use star_struck.Iosc.FirstValue.{iosc_init-set_data}
use star_struck.Iosc.Released.{IsReleased, create_object-delete_object}
use star_struck.Iosc.CounterKey.{IsCounterKey, with_metadata}
use star_struck.Iosc.Advanced.{dummy, put_dummy, larger, set_data-put_dummy}
use star_struck.Iosc.Unread.{set_data-unk2, set_data-unread}

-- The entry 3 is linked to the entry 5, which is linked back to it.
abbrev entry : ℕ → KeyringEntry
entry j = record {
  is_used = (j == 3) || (j == 5);
  key = replicate 32 0;
  key_next_part_index = if j == 3 then 5 else if j == 5 then 3 else 0;
}

-- The handles below 12 are those of counters, of the processes 0 and 1.
abbrev handle : ℕ → KeyringMetadata
handle h = record {
  is_used = ltb h 12;
  kind = record { type = 3; subtype = 6 };
  owner_process = 3;
  zeroes = 0;
  metadata = 1;
  keyring_index = pos 3;
}

abbrev store : Keyring
store = record { entries = entry; handles = handle }

-- A memory that is not set, and one that is, with an EEPROM of ones only.
abbrev chip : Miso
chip es = true

abbrev unset : Board
unset = record { otp_is_set = false; miso = chip; stack = replicate 10 0 }

abbrev set : Board
set = record { otp_is_set = true; miso = chip; stack = replicate 10 0 }

abbrev counters : Counters
counters = record {
  dummy_version = 1;
  dummy_unk1 = 1;
  dummy_unk2 = 1;
  dummy_gen = 1;
  dummy_prng_seed = 0;
  pins = record { clock = true; select = false; mosi = false; edges = [] };
}

-- The value 4 for two of the counters, by the process 1.
version_key : IsCounterKey 1 7 4 store
unfolding owns_key
version_key = record { valid = refl; kind = refl; monotonic = omega arith; owner = refl }

unk2_key : IsCounterKey 1 9 4 store
unfolding owns_key
unk2_key = record { valid = refl; kind = refl; monotonic = omega arith; owner = refl }

delete_keyring_entry-ends_example : delete_keyring_entry 7 store ≢ hang
delete_keyring_entry-ends_example = delete_keyring_entry-ends 7 store

create_object-delete_object_example :
    (g s : Keyring) × (create_object ipc_success ipc_success ipc_success 1 0 1 store
      ≡ ok (ipc_success, some 12, g))
    × (owns_key 1 12 g ≡ ipc_success)
    × (delete_object ipc_success ipc_success 1 12 g ≡ ok (ipc_success, s))
    × IsReleased store 12 s
unfolding free_entries get_key_size_from_type
create_object-delete_object_example =
    create_object-delete_object 1 0 1 0x14 12 store refl (omega arith) (omega arith) (omega arith)
      (omega arith) refl (λ j lt. ground (arith, lt)) (omega arith)

set_data-put_dummy_example :
    set_data ipc_success ipc_success 4 1 7 4 store unset counters
    ≡ ok (ipc_success, with_metadata 7 4 store, put_dummy 7 (larger (dummy 7 counters) 4) counters)
unfolding dummy
set_data-put_dummy_example =
    set_data-put_dummy 1 7 4 4 store unset counters refl (inl refl) version_key (omega arith)
      (omega arith) (omega arith) (omega arith)

set_data-unk2_example : set_data ipc_success ipc_success 100 1 9 4 store unset counters ≡ hang
set_data-unk2_example =
    set_data-unk2 1 4 100 store unset counters refl unk2_key (omega arith) (omega arith)

set_data-unread_example :
    set_data ipc_success ipc_success 1 1 7 4 store set counters
    ≡ ok (ipc_success, with_metadata 7 4 store, (boot2_get_version set counters).1)
unfolding select_counter boot2_get_version get_boot2_field consider_boot2 read_word
set_data-unread_example =
    set_data-unread 1 7 4 0 4 store (boot2_get_version, boot2_update_version) set counters
      (boot2_get_version set counters).1 version_key refl refl (omega arith) (omega arith)

iosc_init-create_object_example :
    (g s : Keyring) × (d : Counters) × (iosc_init
        (record { type = 0; subtype = 0 })
        (λ a. 0)
        (replicate 16 0)
        set
        counters
        store
      ≡ ok (ipc_success, g, d))
    × (create_object ipc_success ipc_success ipc_success 3 2 4 g ≡ ok (ipc_success, some 12, s))
    × (owns_key 3 12 s ≡ ipc_success)
unfolding get_key_size_from_type
iosc_init-create_object_example =
    iosc_init-create_object (record { type = 0; subtype = 0 }) (λ a. 0) (replicate 16 0) set
      counters store 3 2 4 0x5a refl (omega arith) (omega arith)

iosc_init-set_data_example :
    (g : Keyring) × (iosc_init
        (record { type = 0; subtype = 0 })
        (λ a. 0)
        (replicate 16 0)
        unset
        counters
        store
      ≡ ok (ipc_success, g, counters))
    × (set_data ipc_success ipc_success 5 1 7 4 g unset counters
        ≡ ok (ipc_success, with_metadata 7 4 g, record counters { dummy_version = 4 }))
iosc_init-set_data_example =
    iosc_init-set_data (record { type = 0; subtype = 0 }) (λ a. 0) (replicate 16 0) unset counters
      store 1 4 5 refl (inr refl) (omega arith) (omega arith) (omega arith) (omega arith)
