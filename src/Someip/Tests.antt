-- ===== src/Someip/Tests.antt =====
-- A service with one event, and payloads of twenty bytes.
use inc_someip_gateway.Base.{
  ◌+◌, ◌≡◌, ◌≤◌, ◌<◌, refl, List, [], ◌∷◌, none, some, length, drop, arith, replicate, nat_eq,
}
use inc_someip_gateway.Strings.{list_beq}
use inc_someip_gateway.Strings.Fixed.{take}
use inc_someip_gateway.Map.{find}
use inc_someip_gateway.Serializer.{
  PreSerialized, ServiceType, get_serializer, get_max_serialized_size, lookup_serialization_config,
  is_named, config_of, find_element,
}
use inc_someip_gateway.Serializer.Roundtrip.{message, IsHeld}
use inc_someip_gateway.Someip.{drops, faults, updates, notifies, sends}
use inc_someip_gateway.Someip.Payload.{Payload, payload_data}
use inc_someip_gateway.Someip.Samples.{
  EventConfig, ServiceConfig, header_start, header_end, receive_sample, forward_event, has_name,
}
use inc_someip_gateway.Someip.Network.{forward_to_vsomeip, VsomeipMessage, handle_message}
use inc_someip_gateway.Someip.Delivery.{sample_notified}
use inc_someip_gateway.Someip.Reception.{message_sampled}
use inc_someip_gateway.Someip.Slots.{largest_size, size_of, max, event_slot_size}
use inc_someip_gateway.Someip.Slots.Fitting.{sample_fits}

abbrev speed : EventConfig
speed = record { event_name = b's' ∷ []; event_id = 0x8001 }

abbrev car : ServiceConfig
car = record {
  service_type_name = b'c' ∷ [];
  service_id = 0x1234;
  version_major = 1;
  events = speed ∷ [];
}

abbrev slot : Payload
slot = record { bytes = replicate 20 9; lead_offset = 0; header_size = 0; slot_handle = 3 }

abbrev sample : PreSerialized
sample = record { size = 2; bytes = 5 ∷ 6 ∷ 7 ∷ [] }

sample_notified_example :
    (16 + 2 ≤ length (payload_data slot)
      → (p' : Payload) × (receive_sample car speed 0 (some slot) sample ≡ updates 0 p')
        × (forward_to_vsomeip car 1 0 p' ≡ notifies 0x1234 1 0x8001 (message sample))
        × (take 4 (payload_data p') ≡ header_start car speed)
        × (take 8 (drop 8 (payload_data p')) ≡ header_end car))
    × (16 ≤ length (payload_data slot)
        → length (payload_data slot) < 16 + 2
        → receive_sample car speed 0 (some slot) sample ≡ drops)
    × (length (payload_data slot) < 16 → receive_sample car speed 0 (some slot) sample ≡ faults)
sample_notified_example = sample_notified car speed 1 0 slot sample refl (omega arith) (omega arith)

abbrev notification : VsomeipMessage
notification = record {
  service = 0x1234;
  client = 7;
  session = 1;
  protocol_version = 1;
  interface_version = 1;
  message_type = 2;
  return_code = 0;
  payload = 5 ∷ 6 ∷ [];
}

abbrev target : PreSerialized
target = record { size = 0; bytes = 0 ∷ 0 ∷ 0 ∷ 0 ∷ [] }

message_sampled_example :
    (16 + 2 ≤ length (payload_data slot)
      → (p' : Payload) × (o : PreSerialized) × (handle_message 0 0x8001 (some slot) notification
          ≡ updates 0 p')
        × (forward_event
              ((0, record { config = speed; serializer = some 4 }) ∷ [])
              ((b's' ∷ []) ∷ [])
              0
              p'
              (some target)
            ≡ sends o)
        × (message o ≡ 5 ∷ 6 ∷ [])
        × IsHeld o)
    × (length (payload_data slot) < 16 + 2
        → handle_message 0 0x8001 (some slot) notification ≡ faults)
message_sampled_example =
    message_sampled ((0, record { config = speed; serializer = some 4 }) ∷ []) ((b's' ∷ []) ∷ []) 0
      0x8001 4 speed slot notification target (unfold find in refl)
      (unfold has_name list_beq in refl) (omega arith) (unfold payload_data in omega arith)
      (omega arith) (omega arith)

abbrev serializers : List ServiceType
serializers =
    record {
      name = some (b'c' ∷ []);
      events = some (record { name = some (b's' ∷ []); request = some 4; response = none } ∷ []);
      methods = none;
    }
    ∷ []

abbrev message_slot : Payload
message_slot = record { bytes = replicate 20 0; lead_offset = 0; header_size = 0; slot_handle = 0 }

sample_fits_example :
    (p' : Payload) × (receive_sample car speed 0 (some message_slot) sample ≡ updates 0 p')
    × (forward_to_vsomeip car 1 0 p' ≡ notifies 0x1234 1 0x8001 (message sample))
sample_fits_example =
    sample_fits serializers car speed 1 0 4 (some 4) message_slot sample
      (unfold largest_size size_of max get_max_serialized_size get_serializer
          lookup_serialization_config is_named config_of find_element list_beq in
        refl)
      (omega arith) refl
      (unfold get_serializer lookup_serialization_config is_named config_of find_element list_beq in
        refl)
      (omega arith)
      (unfold payload_data event_slot_size largest_size size_of max get_max_serialized_size
          get_serializer lookup_serialization_config is_named config_of find_element list_beq in
        refl)
      (omega arith) (unfold get_max_serialized_size in omega arith)
