-- ===== src/SlotManager/Factory.antt =====
-- `create_shared_memory_slot_manager` and `Shared_memory_manager_factory_impl` of
-- score/gateway_ipc_binding/impl/shared_memory_slot_manager.cpp, and the read-only manager that
-- `open` gives. `SharedMemoryFactory` is not part of the repository: it is a parameter.
pub mod Laws
mod Tests
use inc_someip_gateway.Base.{
  ℕ, ◌+◌, ◌*◌, ◌%◌, ◌^◌, ◌≤◌, ◌<◌, ◌≡◌, ◌⊎◌, refl, List, [], ◌∷◌, Option, none, some, Result, ok,
  err, min, if◌then◌else◌, ◌==◌, leb, arith, value_or,
}
use inc_someip_gateway.Map.{Map, find, insert_or_assign}
use inc_someip_gateway.Strings.{string_eq}
use inc_someip_gateway.Wire.{Service, service_eq, InstanceId, Metadata, MemoryConfig, Handle}
use inc_someip_gateway.SlotManager.{
  Manager, Span, Error, logic_error_invalid_slot_size, logic_error_invalid_slot_count,
  runtime_error_shared_memory_allocation_failed, logic_error_no_configuration_for_interface,
  logic_error_no_configuration_for_instance, make_manager, get_memory, size_mod,
}

-- What `Create` and `allocate` give for a path and a size, and what `Open` gives for a path: the
-- address of memory, or nothing.
pub record MemoryFactory : Type 0 where
  pub create_and_allocate : List ℕ → ℕ → Option ℕ
  pub open_read_only : List ℕ → Option ℕ

abbrev pub Configuration : Type 0
Configuration = Map Service (Map InstanceId Metadata)

-- `slot_count * slot_size` is a `size_t`.
unfoldable pub create_shared_memory_slot_manager :
    MemoryFactory → List ℕ → ℕ → ℕ → Result Error Manager
create_shared_memory_slot_manager f path slot_count slot_size =
    let total_size = (slot_count * slot_size) % size_mod in
    if slot_size == 0
    then err logic_error_invalid_slot_size
    else if slot_count == 0
    then err logic_error_invalid_slot_count
    else elim (f.create_and_allocate path total_size) [
      | none ↦ err runtime_error_shared_memory_allocation_failed
      | some base_address ↦ ok (make_manager slot_size slot_count base_address path)
    ]

unfoldable pub create : MemoryFactory → Configuration → Service → InstanceId → Result Error Manager
create f configuration interface instance_id = elim (find interface configuration) [
  | none ↦ err logic_error_no_configuration_for_interface
  | some instances ↦ elim (find instance_id instances) [
    | none ↦ err logic_error_no_configuration_for_instance
    | some m ↦ create_shared_memory_slot_manager f m.path m.slot_count m.slot_size
  ]
]

-- `m_configuration[interface][instance] = entry.metadata`.
unfoldable pub register_entry : Configuration → MemoryConfig → Configuration
register_entry configuration entry =
    insert_or_assign entry.service
      (insert_or_assign entry.instance_id entry.metadata
        (value_or (find entry.service configuration) []))
      configuration

unfoldable pub register_configuration : Configuration → List MemoryConfig → Configuration
register_configuration configuration [] = configuration
register_configuration configuration (entry ∷ rest) =
    register_configuration (register_entry configuration entry) rest

-- `Read_only_shared_memory_slot_manager_impl`.
pub record ReadOnlyManager : Type 0 where
  pub base_address : ℕ
  pub slot_size : ℕ
  pub slot_count : ℕ

unfoldable pub open_read_only_manager : MemoryFactory → Metadata → Result Error ReadOnlyManager
open_read_only_manager f metadata = elim (f.open_read_only metadata.path) [
  | none ↦ err runtime_error_shared_memory_allocation_failed
  | some base ↦ ok (record {
    base_address = base;
    slot_size = metadata.slot_size;
    slot_count = metadata.slot_count;
  })
]

-- `make_read_only_shared_memory_payload`: the bytes of the payload.
unfoldable pub make_read_only_shared_memory_payload : ℕ → ℕ → ℕ → ℕ → Span
make_read_only_shared_memory_payload base slot_index slot_size used_bytes = record {
  address = (base + (slot_index * slot_size) % size_mod) % size_mod;
  bytes = min used_bytes slot_size;
}

unfoldable pub get_payload : ReadOnlyManager → Handle → Option Span
unfolding make_read_only_shared_memory_payload
get_payload m h =
    if leb m.slot_count h.slot_index
    then none
    else some
        (make_read_only_shared_memory_payload m.base_address h.slot_index m.slot_size h.used_bytes)
