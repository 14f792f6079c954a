-- ===== src/Allocations.antt =====
-- `Shared_memory_managers` of score/gateway_ipc_binding/impl/shared_memory_managers.hpp: which
-- payloads are kept alive until every consumer has reported that it is done with them.
pub mod Consumers
mod Tests
use inc_someip_gateway.Base.{
  ℕ, zero, suc, ◌+◌, ◌-◌, ◌%◌, ◌^◌, Bool, true, false, List, [], ◌∷◌, ◌++◌, Option, none, some,
  if◌then◌else◌, ◌==◌, ltb, leb, length, set, get_elem?, replicate, value_or, is_some, nat_eq,
}
use inc_someip_gateway.Map.{Map, find, insert_or_assign}
use inc_someip_gateway.Wire.{Handle}

-- A `socom::Payload` by the slot that it lies in and its size.
pub record Payload : Type 0 where
  pub slot_handle : ℕ
  pub size : ℕ

-- `Shared_memory_allocation`.
pub record Allocation : Type 0 where
  pub payload : Option Payload
  pub pending_consumers : ℕ

abbrev pub Allocations : Type 0
Allocations = Map ℕ (List Allocation)

abbrev pub no_allocation : Allocation
no_allocation = record { payload = none; pending_consumers = 0 }

abbrev pub size_mod : ℕ
size_mod = 2 ^ 64

-- `allocations.resize(n)`, called only to grow, but for the wrap-around of `n`.
unfoldable pub resize : ℕ → List Allocation → List Allocation
resize zero xs = []
resize (suc n) [] = no_allocation ∷ resize n []
resize (suc n) (x ∷ xs) = x ∷ resize n xs

-- The vector with room for the slot.
unfoldable pub with_room : ℕ → List Allocation → List Allocation
unfolding resize
with_room slot_handle allocations =
    if leb (length allocations) slot_handle
    then resize ((slot_handle + 1) % size_mod) allocations
    else allocations

unfoldable pub retain : Payload → ℕ → Allocation → Allocation
retain payload consumer_count a = record {
  payload = if is_some a.payload then a.payload else some payload;
  pending_consumers = (a.pending_consumers + consumer_count) % size_mod;
}

-- `none` stands for a write behind the end of the vector.
unfoldable pub insert_allocation : ℕ → Payload → ℕ → Allocations → Option Allocations
unfolding with_room retain
insert_allocation key payload consumer_count m =
    let allocations = with_room payload.slot_handle (value_or (find key m) []) in
    if consumer_count == 0 then some m else elim (get_elem? allocations payload.slot_handle) [
      | none ↦ none
      | some a ↦ some (
          insert_or_assign key
            (set allocations payload.slot_handle (retain payload consumer_count a)) m)
    ]

-- What a report of a consumer does to its allocation.
unfoldable pub consume : Allocation → Allocation
consume a =
    if a.pending_consumers == 0
    then a
    else if ltb 1 a.pending_consumers
    then record a { pending_consumers = a.pending_consumers - 1 }
    else no_allocation

unfoldable pub payload_consumed : ℕ → Handle → Allocations → Allocations
unfolding consume
payload_consumed key handle m = elim (find key m) [
  | none ↦ m
  | some allocations ↦ elim (get_elem? allocations handle.slot_index) [
    | none ↦ m
    | some a ↦ insert_or_assign key (set allocations handle.slot_index (consume a)) m
  ]
]
