-- ===== src/SlotManager.antt =====
-- The writable slot manager of score/gateway_ipc_binding/impl/shared_memory_slot_manager.cpp. Every
-- operation that writes holds the mutex, so an operation is one step. `Error` is
-- `Shared_memory_manager_error` of score/gateway_ipc_binding/error.hpp.
pub mod Counts
pub mod Contract
pub mod Memory
pub mod Guard
pub mod Factory
mod Tests
use inc_someip_gateway.Base.{
  ℕ, zero, suc, ◌+◌, ◌-◌, ◌*◌, ◌%◌, ◌^◌, List, [], ◌∷◌, Option, none, some, Result, ok, err,
  if◌then◌else◌, ltb, leb, ◌==◌,
}

pub data Error : Type 0 where
  logic_error_invalid_slot_size logic_error_invalid_slot_count : Error
  runtime_error_shared_memory_allocation_failed logic_error_invalid_slot_handle : Error
  runtime_error_slot_not_allocated runtime_error_no_available_slots : Error
  logic_error_no_configuration_for_interface logic_error_no_configuration_for_instance : Error

-- `Slot_metadata`: the count is a `uint32_t`.
pub record Slot : Type 0 where
  pub reference_count : ℕ
  pub offset : ℕ

pub record Manager : Type 0 where
  pub slot_size : ℕ
  pub slot_count : ℕ
  pub base_address : ℕ
  pub path : List ℕ
  pub slots : List Slot

-- `score::cpp::span<Byte>`: the address of the first byte, and the number of bytes.
pub record Span : Type 0 where
  pub address : ℕ
  pub bytes : ℕ

abbrev pub uint32_mod : ℕ
uint32_mod = 2 ^ 32

-- Sizes, offsets and addresses wrap here.
abbrev pub size_mod : ℕ
size_mod = 2 ^ 64

-- The loop of the constructor, from slot `i` on, with `left` slots to go.
unfoldable pub init_slots : ℕ → ℕ → ℕ → List Slot
init_slots slot_size i zero = []
init_slots slot_size i (suc left) =
    record { reference_count = 0; offset = (i * slot_size) % size_mod }
    ∷ init_slots slot_size (i + 1) left

unfoldable pub make_manager : ℕ → ℕ → ℕ → List ℕ → Manager
make_manager slot_size slot_count base_address path = record {
  slot_size = slot_size;
  slot_count = slot_count;
  base_address = base_address;
  path = path;
  slots = init_slots slot_size 0 slot_count;
}

unfoldable pub load_count : List Slot → ℕ → ℕ
load_count [] h = 0
load_count (s ∷ rest) zero = s.reference_count
load_count (s ∷ rest) (suc h) = load_count rest h

unfoldable pub store_count : List Slot → ℕ → ℕ → List Slot
store_count [] h count = []
store_count (s ∷ rest) zero count = record s { reference_count = count } ∷ rest
store_count (s ∷ rest) (suc h) count = s ∷ store_count rest h count

-- The slot at which the loop of `allocate_slot` ends, from slot `i` on.
unfoldable pub first_free : ℕ → List Slot → Option ℕ
first_free i [] = none
first_free i (s ∷ rest) =
    let later = first_free (i + 1) rest in if s.reference_count == 0 then some i else later

unfoldable pub allocate_slot : Manager → Manager × Result Error ℕ
allocate_slot m = elim (first_free 0 m.slots) [
  | none ↦ (m, err runtime_error_no_available_slots)
  | some h ↦ (record m { slots = store_count m.slots h 1 }, ok h)
]

unfoldable pub add_consumer : Manager → ℕ → Manager × Result Error (Unit {0})
add_consumer m h =
    let current = load_count m.slots h in
    if leb m.slot_count h
    then (m, err logic_error_invalid_slot_handle)
    else if current == 0
    then (m, err runtime_error_slot_not_allocated)
    else (record m { slots = store_count m.slots h ((current + 1) % uint32_mod) }, ok tt)

unfoldable pub release_slot : Manager → ℕ → Manager × Result Error (Unit {0})
release_slot m h =
    let current = load_count m.slots h in
    if leb m.slot_count h
    then (m, err logic_error_invalid_slot_handle)
    else if current == 0
    then (m, err runtime_error_slot_not_allocated)
    else (
      record m { slots = store_count m.slots h ((current + uint32_mod - 1) % uint32_mod) },
      ok tt,
    )

-- The loop of `get_allocated_slot_count`.
unfoldable pub count_allocated : List Slot → ℕ
count_allocated [] = 0
count_allocated (s ∷ rest) = (if ltb 0 s.reference_count then 1 else 0) + count_allocated rest

unfoldable pub get_allocated_slot_count : Manager → ℕ
get_allocated_slot_count m = count_allocated m.slots

unfoldable pub get_reference_count : Manager → ℕ → ℕ
get_reference_count m h = if leb m.slot_count h then 0 else load_count m.slots h

unfoldable pub load_offset : List Slot → ℕ → ℕ
load_offset [] h = 0
load_offset (s ∷ rest) zero = s.offset
load_offset (s ∷ rest) (suc h) = load_offset rest h

unfoldable pub get_memory : Manager → ℕ → Result Error Span
unfolding get_reference_count
get_memory m h =
    if leb m.slot_count h
    then err logic_error_invalid_slot_handle
    else if get_reference_count m h == 0
    then err runtime_error_slot_not_allocated
    else ok (record {
      address = (m.base_address + load_offset m.slots h) % size_mod;
      bytes = m.slot_size;
    })
