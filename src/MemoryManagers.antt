-- ===== src/MemoryManagers.antt =====
-- The slot managers of `Shared_memory_managers` and `Read_only_memory_managers` of
-- score/gateway_ipc_binding/impl/shared_memory_managers.hpp: made when they are first asked for.
-- `none` stands for a failed assertion.
use inc_someip_gateway.Base.{ℕ, List, Option, none, some, ok, err, nat_eq}
use inc_someip_gateway.Map.{Map, find, insert_or_assign}
use inc_someip_gateway.Strings.{string_eq}
use inc_someip_gateway.Wire.{Metadata, MemoryConfig}
use inc_someip_gateway.Keys.{Keys, get_pair}
use inc_someip_gateway.Allocations.{Allocations}
use inc_someip_gateway.SlotManager.{Manager}
use inc_someip_gateway.SlotManager.Factory
use inc_someip_gateway.SlotManager.Factory.{
  MemoryFactory, Configuration, ReadOnlyManager, open_read_only_manager,
}

pub record Managers : Type 0 where
  pub configuration : Configuration
  pub slot_managers : Map ℕ Manager
  pub allocations : Allocations
  pub read_only : Map (List ℕ) ReadOnlyManager

unfoldable pub get_shared_memory_slot_manager :
    MemoryFactory → Keys → ℕ → Managers → Option (Managers × Manager)
get_shared_memory_slot_manager f keys key m = elim (find key m.slot_managers) [
  | some manager ↦ some (m, manager)
  | none ↦ elim (get_pair key keys) [
    | none ↦ none
    | some (service, instance_id) ↦ elim (Factory.create f m.configuration service instance_id) [
      | err e ↦ none
      | ok manager ↦
          some (record m { slot_managers = insert_or_assign key manager m.slot_managers }, manager)
    ]
  ]
]

unfoldable pub metadata_of_manager : Manager → Metadata
metadata_of_manager manager = record {
  path = manager.path;
  slot_size = manager.slot_size;
  slot_count = manager.slot_count;
}

unfoldable pub get_shared_memory_metadata :
    MemoryFactory → Keys → ℕ → Managers → Option (Managers × Metadata)
unfolding metadata_of_manager
get_shared_memory_metadata f keys key m = elim (get_shared_memory_slot_manager f keys key m) [
  | none ↦ none
  | some (m', manager) ↦ some (m', metadata_of_manager manager)
]

unfoldable pub register_configuration : List MemoryConfig → Managers → Managers
register_configuration configs m = record m {
  configuration = Factory.register_configuration m.configuration configs;
}

unfoldable pub get_read_only_shared_memory_slot_manager :
    MemoryFactory → Metadata → Managers → Option (Managers × ReadOnlyManager)
get_read_only_shared_memory_slot_manager f metadata m = elim (find metadata.path m.read_only) [
  | some manager ↦ some (m, manager)
  | none ↦ elim (open_read_only_manager f metadata) [
    | err e ↦ none
    | ok manager ↦
        some (record m { read_only = insert_or_assign metadata.path manager m.read_only }, manager)
  ]
]
