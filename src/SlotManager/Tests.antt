-- ===== src/SlotManager/Tests.antt =====
-- The slot manager and its guards on a memory of two slots of 16 bytes, shared once.
use inc_someip_gateway.Base.{ℕ, ◌+◌, set, ◌<◌, ◌≤◌, ◌≡◌, ◌⊎◌, refl, [], ◌∷◌, arith}
use inc_someip_gateway.SlotManager.{
  Manager, Span, allocate_slot, add_consumer, release_slot, get_reference_count, get_memory,
  make_manager, get_allocated_slot_count, init_slots, load_count, store_count, first_free,
  load_offset,
}
use inc_someip_gateway.SlotManager.Counts.{IsValid}
use inc_someip_gateway.SlotManager.Contract.{
  Allocation, allocate_slot-Allocation, Change, release_slot-Change,
}
use inc_someip_gateway.SlotManager.Memory.{get_memory_separate}
use inc_someip_gateway.SlotManager.Guard.{create_slot_guard, share, has_slot, reset}
use inc_someip_gateway.SlotManager.Guard.Owners.{owners, occurrences}
use inc_someip_gateway.SlotManager.Guard.Ownership.{System, allocates, shares, resets}
use inc_someip_gateway.SlotManager.Guard.Lifetime.{
  start, Reach, here, later, Reach-IsBalanced, allocate_slot_fresh, no_leak,
}
use inc_someip_gateway.SlotManager.Guard.Ownership.{IsBalanced}

abbrev two_slots : Manager
two_slots = record {
  slot_size = 16;
  slot_count = 2;
  base_address = 1000;
  path = [];
  slots =
      record { reference_count = 1; offset = 0 } ∷ record { reference_count = 0; offset = 16 } ∷ [];
}

abbrev both_used : Manager
both_used = record {
  slot_size = 16;
  slot_count = 2;
  base_address = 1000;
  path = [];
  slots =
      record { reference_count = 2; offset = 0 } ∷ record { reference_count = 1; offset = 16 } ∷ [];
}

two_slots-IsValid : IsValid two_slots
two_slots-IsValid = omega arith

both_used-IsValid : IsValid both_used
both_used-IsValid = omega arith

allocate_slot-Allocation_example : Allocation two_slots (allocate_slot two_slots)
allocate_slot-Allocation_example = allocate_slot-Allocation two_slots two_slots-IsValid

release_slot-Change_example : Change both_used 0 1 (release_slot both_used 0)
unfolding get_reference_count load_count
release_slot-Change_example = release_slot-Change both_used 0 both_used-IsValid

abbrev first_span : Span
first_span = record { address = 1000; bytes = 16 }

abbrev second_span : Span
second_span = record { address = 1016; bytes = 16 }

get_memory_separate_example : (1000 ≤ 1000) × (1016 ≤ 1032) × ((1016 ≤ 1016) ⊎ (1032 ≤ 1000))
unfolding get_memory get_reference_count load_count load_offset
get_memory_separate_example =
    get_memory_separate both_used 0 1 first_span second_span both_used-IsValid (omega arith) refl
      refl (omega arith)

-- One slot is allocated and shared.
abbrev started : System
started = start 16 2 1000 []

abbrev allocated : System
allocated = record { manager = two_slots; guards = create_slot_guard 0 ∷ []; raw = [] }

abbrev shared : System
shared = record {
  manager = record two_slots {
    slots =
        record { reference_count = 2; offset = 0 }
        ∷ record { reference_count = 0; offset = 16 }
        ∷ [];
  };
  guards = create_slot_guard 0 ∷ create_slot_guard 0 ∷ [];
  raw = [];
}

shared-Reach : Reach (start 16 2 1000 []) shared
unfolding start make_manager init_slots allocate_slot first_free store_count share has_slot
    create_slot_guard add_consumer load_count
shared-Reach =
    later (later here (allocates two_slots 0 refl))
      (shares 0 (create_slot_guard 0) (create_slot_guard 0) _ refl (omega arith) refl)

Reach-IsBalanced_example : IsBalanced shared
Reach-IsBalanced_example = Reach-IsBalanced 16 2 1000 [] shared-Reach

allocate_slot_fresh_example :
    (owners 1 shared.guards ≡ 0) × (occurrences 1 shared.raw ≡ 0) × (1 < 2)
unfolding allocate_slot first_free store_count
allocate_slot_fresh_example =
    allocate_slot_fresh 16 2 1000 [] shared
      (record shared.manager {
        slots =
            record { reference_count = 2; offset = 0 }
            ∷ record { reference_count = 1; offset = 16 }
            ∷ [];
      })
      1 shared-Reach refl

-- Both owners go, one after the other.
abbrev one_left : System
one_left = record {
  manager = (reset shared.manager (create_slot_guard 0)).0;
  guards = set shared.guards 0 (reset shared.manager (create_slot_guard 0)).1;
  raw = [];
}

abbrev none_left : System
none_left = record {
  manager = (reset one_left.manager (create_slot_guard 0)).0;
  guards = set one_left.guards 1 (reset one_left.manager (create_slot_guard 0)).1;
  raw = [];
}

none_left-Reach : Reach (start 16 2 1000 []) none_left
none_left-Reach =
    later (later shared-Reach (resets 0 (create_slot_guard 0) refl))
      (resets 1 (create_slot_guard 0) refl)

no_leak_example : get_allocated_slot_count none_left.manager ≡ 0
no_leak_example = no_leak 16 2 1000 [] none_left none_left-Reach no_owner
  where
    no_owner : (h : ℕ) → owners h none_left.guards + occurrences h none_left.raw ≡ 0
    no_owner h = unfold owners occurrences reset has_slot create_slot_guard in ground arith
