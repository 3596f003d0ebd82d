-- ===== src/Resources/Tests.antt =====
-- Runs of the theorems on kernel/source/messaging/resourceManager.c.
use star_struck.Base.{ℕ, ◌≡◌, refl, List, [], ◌∷◌, pos, none, arith}
use star_struck.Resources.Register.{
  Resources, ResourceManager, HashTable, find_place, same_path, ipc_eexist,
  register_resource_manager,
}
use star_struck.Resources.Table.{IsTable}
use star_struck.Resources.Again.{
  Registered, register_resource_manager-Registered, register_resource_manager-again,
}

abbrev no_manager : ResourceManager
no_manager = record {
  device_path = [];
  path_length = 0;
  queue = 0;
  process_id = 0;
  ppc_has_access_rights = 0;
}

abbrev no_managers : Resources
no_managers = record { managers = λ i. no_manager; aes_belongs_to = none; sha_belongs_to = none }

abbrev no_hashes : HashTable
no_hashes = record { hash_table = λ i. 0; hash_table_salt = 0; hash_table_count = 0 }

-- "/dev"
abbrev device : List ℕ
device = 0x2f ∷ 0x64 ∷ 0x65 ∷ 0x76 ∷ []

empty-IsTable : IsTable 0 no_managers.managers
empty-IsTable = record {
  most = omega arith;
  taken = λ i lt. absurd (omega (arith, lt));
  free = λ i low lt. refl;
  distinct = λ i j lt last. absurd (omega (arith, last));
}

abbrev with_device : Resources
with_device = (register_resource_manager no_hashes (λ q. 2) (pos 0) 2 device (pos 5) no_managers).1

register_resource_manager-Registered_example :
    Registered 0 device no_managers
      (register_resource_manager no_hashes (λ q. 2) (pos 0) 2 device (pos 5) no_managers)
register_resource_manager-Registered_example =
    register_resource_manager-Registered no_hashes (λ q. 2) 2 device 0 no_managers empty-IsTable
      (pos 0) (pos 5)

register_resource_manager-again_example :
    register_resource_manager no_hashes (λ q. 3) (pos 0) 3 device (pos 7) with_device
    ≡ (ipc_eexist, with_device)
unfolding register_resource_manager same_path find_place
register_resource_manager-again_example =
    register_resource_manager-again no_hashes no_hashes (λ q. 2) (λ q. 3) 2 3 7 0 device (pos 0)
      (pos 5) no_managers with_device empty-IsTable refl (omega arith) refl
