-- ===== src/Allocations/Tests.antt =====
-- A payload in slot 1 of the memory of key 0, for two consumers.
use inc_someip_gateway.Base.{◌≡◌, ◌^◌, ◌-◌, refl, [], ◌∷◌, none, some, arith}
use inc_someip_gateway.Map.{find, insert_or_assign}
use inc_someip_gateway.Wire.{Handle}
use inc_someip_gateway.Allocations.{
  Payload, Allocations, no_allocation, retain, insert_allocation, with_room, resize,
}
use inc_someip_gateway.Allocations.Consumers.{
  allocation_of, reports, payload_held, insert_allocation_no_slot,
}

abbrev picture : Payload
picture = record { slot_handle = 1; size = 20 }

abbrev no_slot : Payload
no_slot = record { slot_handle = 2 ^ 64 - 1; size = 20 }

abbrev picture_handle : Handle
picture_handle = record { slot_index = 1; used_bytes = 20 }

abbrev two_readers : Allocations
two_readers =
    (0, no_allocation ∷ record { payload = some picture; pending_consumers = 2 } ∷ []) ∷ []

picture_inserted : insert_allocation 0 picture 2 [] ≡ some two_readers
unfolding insert_allocation with_room resize retain find insert_or_assign
picture_inserted = refl

payload_held_example :
    ((allocation_of 0 1 (reports 1 0 picture_handle two_readers)).payload ≡ some picture)
    × (allocation_of 0 1 (reports 2 0 picture_handle two_readers) ≡ no_allocation)
unfolding allocation_of find
payload_held_example =
    payload_held 0 2 1 picture picture_handle [] two_readers (omega arith) (omega arith)
      (omega arith) refl refl picture_inserted (omega arith)

insert_allocation_no_slot_example : insert_allocation 0 no_slot 2 two_readers ≡ none
unfolding find
insert_allocation_no_slot_example =
    insert_allocation_no_slot 0 2 no_slot two_readers (omega arith) refl (omega arith)
