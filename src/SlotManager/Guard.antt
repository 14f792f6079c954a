-- ===== src/SlotManager/Guard.antt =====
-- `Shared_memory_slot_guard` of score/gateway_ipc_binding/impl/shared_memory_slot_manager.cpp: an
-- owner of one reference to a slot. One manager stands for the pointer's target, so that the pointer
-- is null or not.
pub mod Owners
pub mod Effects
pub mod Ownership
pub mod Lifetime
use inc_someip_gateway.Base.{
  ℕ, Bool, true, false, Option, none, some, Result, ok, err, if◌then◌else◌,
}
use inc_someip_gateway.SlotManager.{
  Manager, Span, Error, runtime_error_slot_not_allocated, add_consumer, release_slot, get_memory,
}

pub record Guard : Type 0 where
  pub has_manager : Bool
  pub handle : ℕ

-- The default constructor.
abbrev pub empty_guard : Guard
empty_guard = record { has_manager = false; handle = 0 }

-- The constructor that takes over an allocated slot, as `create_slot_guard` calls it.
unfoldable pub create_slot_guard : ℕ → Guard
create_slot_guard handle = record { has_manager = true; handle = handle }

unfoldable pub has_slot : Guard → Bool
has_slot g = g.has_manager

-- `reset`, and the destructor.
unfoldable pub reset : Manager → Guard → Manager × Guard
unfolding has_slot
reset m g =
    if has_slot g then ((release_slot m g.handle).0, record g { has_manager = false }) else (m, g)

-- `release`: the caller owns the reference from then on.
unfoldable pub release : Guard → Guard × Result Error ℕ
unfolding has_slot
release g =
    if has_slot g
    then (record g { has_manager = false }, ok g.handle)
    else (g, err runtime_error_slot_not_allocated)

unfoldable pub get_handle : Guard → Result Error ℕ
unfolding has_slot
get_handle g = if has_slot g then ok g.handle else err runtime_error_slot_not_allocated

unfoldable pub get_memory_of : Manager → Guard → Option Span
unfolding has_slot
get_memory_of m g =
    if has_slot g then elim (get_memory m g.handle) [ ok s ↦ some s | err e ↦ none ] else none

-- The move constructor: the new guard, and what is left of the other.
unfoldable pub move_construct : Guard → Guard × Guard
move_construct other = (other, record other { has_manager = false })

-- Move assignment to another object than `other`: the manager, the guard and what is left of
-- `other`.
unfoldable pub move_assign : Manager → Guard → Guard → Manager × Guard × Guard
unfolding reset
move_assign m g other =
    let released = (reset m g).0 in (released, other, record other { has_manager = false })

-- `share`: with no slot the new guard is empty. `none` stands for the read of a result that holds
-- an error.
unfoldable pub share : Manager → Guard → Manager × Option Guard
unfolding has_slot create_slot_guard
share m g =
    if has_slot g
    then (let (n, r) = add_consumer m g.handle in
        elim r [ ok _ ↦ (n, some (create_slot_guard g.handle)) | err e ↦ (n, none) ])
    else (m, some empty_guard)
