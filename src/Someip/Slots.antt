-- ===== src/Someip/Slots.antt =====
-- The size of the slots for the events of a service, of score/gatewayd/main.cpp.
pub mod Fitting
use inc_someip_gateway.Base.{
  ℕ, ◌+◌, ◌%◌, ◌^◌, List, [], ◌∷◌, Option, none, some, if◌then◌else◌, ltb, ◌==◌, is_empty,
}
use inc_someip_gateway.Serializer.{
  Status, ok, ServiceType, event, get_serializer, get_max_serialized_size,
}
use inc_someip_gateway.Someip.{full_header_size}
use inc_someip_gateway.Someip.Samples.{EventConfig, ServiceConfig}

-- `kMaxMessageSize`.
abbrev pub max_message_size : ℕ
max_message_size = 1500

-- The size that an event asks for: none without a serializer, or where it has no greatest size.
unfoldable pub size_of : Status × Option ℕ → Option ℕ
size_of (ok, serializer) =
    if get_max_serialized_size serializer == 0
    then none
    else some (get_max_serialized_size serializer)
size_of _ = none

unfoldable pub max : ℕ → ℕ → ℕ
max a b = if ltb a b then b else a

-- The loop over the events, with `largest` so far; `none` where it returns the greatest size at once.
unfoldable pub largest_size : List ServiceType → List ℕ → ℕ → List EventConfig → Option ℕ
largest_size serializers service_type_name largest [] = some largest
largest_size serializers service_type_name largest (e ∷ rest) =
    elim (size_of (get_serializer serializers service_type_name event e.event_name)) [
      | none ↦ none
      | some size ↦ largest_size serializers service_type_name (max largest size) rest
    ]

unfoldable pub event_slot_size : List ServiceType → ServiceConfig → ℕ
event_slot_size serializers service =
    if is_empty service.events
    then max_message_size
    else elim (largest_size serializers service.service_type_name 0 service.events) [
      | none ↦ max_message_size
      | some largest ↦ (largest + full_header_size) % 2 ^ 64
    ]
