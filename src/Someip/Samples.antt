-- ===== src/Someip/Samples.antt =====
-- The gateway daemon: a sample of a local service becomes a message
-- (score/gatewayd/impl/local_service_instance.cpp), and a message becomes a sample
-- (score/gatewayd/impl/remote_service_instance.cpp).
use inc_someip_gateway.Base.{
  ℕ, ◌+◌, ◌-◌, ◌%◌, Bool, true, false, not, List, [], ◌∷◌, ◌++◌, Option, none, some, if◌then◌else◌,
  ltb, length, drop, nat_eq,
}
use inc_someip_gateway.Strings.{list_beq}
use inc_someip_gateway.Strings.Fixed.{take}
use inc_someip_gateway.Map.{Map, find}
use inc_someip_gateway.Serializer.{
  Status, ok, PreSerialized, serialize, deserialize, ServiceType, event, get_serializer,
}
use inc_someip_gateway.Someip.{
  full_header_size, write_bytes, two_bytes, Outcome, drops, faults, updates, sends,
}
use inc_someip_gateway.Someip.Payload.{Payload, payload_data, shrink, with_data}

-- The event of the configuration: its name, and its number in the SOME/IP network.
pub record EventConfig : Type 0 where
  pub event_name : List ℕ
  pub event_id : ℕ

-- The service type of the configuration.
pub record ServiceConfig : Type 0 where
  pub service_type_name : List ℕ
  pub service_id : ℕ
  pub version_major : ℕ
  pub events : List EventConfig

-- The bytes of the header before the length and after it: the client 0xFFFF, the session 0, the
-- protocol version 1, the major version, a notification, no return code.
unfoldable pub header_start : ServiceConfig → EventConfig → List ℕ
header_start service e = two_bytes service.service_id ++ two_bytes e.event_id

unfoldable pub header_end : ServiceConfig → List ℕ
header_end service =
    two_bytes 65535 ++ two_bytes 0 ++ 1 ∷ (service.version_major % 256) ∷ 2 ∷ 0 ∷ []

unfoldable pub write_header : ServiceConfig → EventConfig → List ℕ → Option (List ℕ)
write_header service e m = elim (write_bytes 0 (header_start service e) m) [
  | none ↦ none
  | some m' ↦ write_bytes 8 (header_end service) m'
]

-- What follows the call of the serializer, which worked on the bytes behind the header.
unfoldable pub after_serialize :
    ℕ → Payload → List ℕ → Status × Option (List ℕ) × Option ℕ → Outcome Payload PreSerialized
after_serialize socom_event_id p m (ok, some b, some written) =
    updates socom_event_id
      (shrink (full_header_size + written) (with_data (take full_header_size m ++ b) p)).0
after_serialize socom_event_id p m _ = drops

-- The receive handler of an event, for one sample. The payload is that of `allocate_event_payload`.
unfoldable pub receive_sample :
    ServiceConfig → EventConfig → ℕ → Option Payload → PreSerialized → Outcome Payload PreSerialized
receive_sample service e socom_event_id none sample = drops
receive_sample service e socom_event_id (some p) sample =
    elim (write_header service e (payload_data p)) [
      | none ↦ faults
      | some m ↦
          after_serialize socom_event_id p m
            (serialize (some (drop full_header_size m)) (length m - full_header_size) (some sample))
    ]

-- `EventContext`: the event, and its serializer, known by the greatest size of its messages.
pub record EventContext : Type 0 where
  pub config : EventConfig
  pub serializer : Option ℕ

unfoldable pub has_name : List (List ℕ) → List ℕ → Bool
has_name [] name = false
has_name (n ∷ ns) name = if list_beq n name then true else has_name ns name

unfoldable pub add_info :
    EventConfig → Status × Option ℕ → Option (List (List ℕ)) → Option (List (List ℕ))
add_info e (ok, serializer) later = elim later [
  | none ↦ none
  | some names ↦ some (e.event_name ∷ names)
]
add_info e _ later = none

-- The loop of `CreateAsyncRemoteService` over the events: the names for the skeleton, or `none` where
-- an event has no serializer.
unfoldable pub make_event_infos :
    List ServiceType → List ℕ → List EventConfig → Option (List (List ℕ))
make_event_infos serializers service_type_name [] = some []
make_event_infos serializers service_type_name (e ∷ rest) =
    let later = make_event_infos serializers service_type_name rest in
    add_info e (get_serializer serializers service_type_name event e.event_name) later

unfoldable pub add_context :
    ℕ → EventConfig → Status × Option ℕ → Map ℕ EventContext → Map ℕ EventContext
add_context id e (ok, serializer) later =
    (id, record { config = e; serializer = serializer }) ∷ later
add_context id e _ later = later

-- The loop of `Create`: the context of each event that the skeleton has and that has a serializer. The
-- events are counted from the first argument on.
unfoldable pub make_contexts :
    List ServiceType → List (List ℕ) → List ℕ → ℕ → List EventConfig → Map ℕ EventContext
make_contexts serializers ipc_events service_type_name id [] = []
make_contexts serializers ipc_events service_type_name id (e ∷ rest) =
    let later = make_contexts serializers ipc_events service_type_name (id + 1) rest in
    if not (has_name ipc_events e.event_name)
    then later
    else add_context id e (get_serializer serializers service_type_name event e.event_name) later

-- The counter of a loop over the events, from the first argument on.
unfoldable pub indices : ℕ → List EventConfig → List ℕ
indices id [] = []
indices id (e ∷ rest) = id ∷ indices (id + 1) rest

unfoldable pub after_deserialize : Status × Option PreSerialized → Outcome Payload PreSerialized
after_deserialize (ok, some sample) = sends sample
after_deserialize _ = drops

-- `forward_event`: `ipc_events` are the events of the skeleton, and `sample` is what `Allocate` gives.
unfoldable pub forward_event :
    Map ℕ EventContext
    → List (List ℕ)
    → ℕ
    → Payload
    → Option PreSerialized
    → Outcome Payload PreSerialized
forward_event contexts ipc_events event_id p sample = elim (find event_id contexts) [
  | none ↦ faults
  | some context ↦
      if not (has_name ipc_events context.config.event_name)
      then drops
      else if ltb (length (payload_data p)) full_header_size
      then faults
      else elim sample [
        | none ↦ drops
        | some target ↦
            let message = drop full_header_size (payload_data p) in
            after_deserialize
              (deserialize context.serializer (some message) (length message) (some target))
      ]
]

-- The events to which `on_service_state_change` subscribes when the service becomes available.
unfoldable pub subscribed_events : ServiceConfig → List ℕ
subscribed_events service = indices 0 service.events
