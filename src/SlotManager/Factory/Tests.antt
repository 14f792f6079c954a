-- ===== src/SlotManager/Factory/Tests.antt =====
-- A factory whose memory starts at 1000 in the writer and at 5000 in the reader.
use inc_someip_gateway.Base.{
  ℕ, ◌≡◌, ◌+◌, ◌-◌, ◌*◌, ◌^◌, ◌%◌, ◌<◌, refl, [], ◌∷◌, some, ok, min, arith,
}
use inc_someip_gateway.Wire.{Service, service_eq, InstanceId, Metadata, Handle}
use inc_someip_gateway.SlotManager.{
  Manager, Span, make_manager, get_memory, get_reference_count, load_count, load_offset,
}
use inc_someip_gateway.SlotManager.Counts.{IsValid}
use inc_someip_gateway.SlotManager.Factory.{
  MemoryFactory, Configuration, ReadOnlyManager, create_shared_memory_slot_manager, get_payload,
  open_read_only_manager,
}
use inc_someip_gateway.SlotManager.Factory.Laws.{created_overflow, IsShared, get_payload_same}

abbrev memory : MemoryFactory
memory = record { create_and_allocate = λ path size. some 1000; open_read_only = λ path. some 5000 }

abbrev radar : Service
radar = record { service_id = b'r' ∷ []; major = 1; minor = 0 }

abbrev front : InstanceId
front = b'f' ∷ []

abbrev two_slots_of_16 : Metadata
two_slots_of_16 = record { path = b'/' ∷ b'r' ∷ []; slot_size = 16; slot_count = 2 }

abbrev radar_memory : Configuration
radar_memory = (radar, (front, two_slots_of_16) ∷ []) ∷ []

abbrev new_manager : Manager
new_manager = make_manager 16 2 1000 (b'/' ∷ b'r' ∷ [])

abbrev too_large : Manager
too_large = make_manager (2 ^ 63) 2 1000 []

created_overflow_example :
    (base h : ℕ) × (some 1000 ≡ some base)
    × (1000 ≡ base)
    × (h < 2)
    × (((2 * 2 ^ 63) % 2 ^ 64) < load_offset too_large.slots h + 2 ^ 63)
unfolding make_manager
created_overflow_example =
    created_overflow memory [] 2 (2 ^ 63) too_large
      (unfold create_shared_memory_slot_manager in refl) (omega arith)

abbrev writer : Manager
writer = record {
  slot_size = 16;
  slot_count = 2;
  base_address = 1000;
  path = [];
  slots =
      record { reference_count = 0; offset = 0 } ∷ record { reference_count = 1; offset = 16 } ∷ [];
}

writer-IsValid : IsValid writer
writer-IsValid = omega arith

abbrev reader : ReadOnlyManager
reader = record { base_address = 5000; slot_size = 16; slot_count = 2 }

abbrev sent : Handle
sent = record { slot_index = 1; used_bytes = 10 }

-- The byte at each place of the memory is the number of the place.
abbrev written : ℕ → ℕ
written address = address - 1000

abbrev shown : ℕ → ℕ
shown address = address - 5000

memory-IsShared : IsShared memory written shown
memory-IsShared path size from to k created opened lt =
    let at_from : from ≡ 1000 = ground arith in
    let at_to : to ≡ 5000 = ground arith in rw (at_from, at_to) (omega arith)

get_payload_same_example :
    (s p : Span) × (get_memory writer 1 ≡ ok s)
    × (get_payload reader sent ≡ some p)
    × (p.bytes ≡ min 10 s.bytes)
    × ((k : ℕ) → k < p.bytes → shown (p.address + k) ≡ written (s.address + k))
unfolding get_reference_count load_count open_read_only_manager
get_payload_same_example =
    get_payload_same memory two_slots_of_16 written shown writer reader sent memory-IsShared refl
      refl refl writer-IsValid refl (omega arith) (omega arith) (omega arith)
