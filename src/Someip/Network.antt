-- ===== src/Someip/Network.antt =====
-- The SOME/IP daemon: an update of an event is notified through vsomeip
-- (score/someipd/impl/local_network_service.cpp), and a message of vsomeip updates an event
-- (score/someipd/impl/remote_network_service.cpp).
use inc_someip_gateway.Base.{
  ℕ, ◌+◌, ◌-◌, ◌%◌, ◌^◌, List, [], ◌∷◌, ◌++◌, Option, none, some, if◌then◌else◌, ltb, length, drop,
  get_elem?,
}
use inc_someip_gateway.Strings.Fixed.{take}
use inc_someip_gateway.Serializer.{PreSerialized, copy_to}
use inc_someip_gateway.Someip.{
  full_header_size, write_bytes, two_bytes, four_bytes, Outcome, drops, faults, updates, notifies,
}
use inc_someip_gateway.Someip.Payload.{Payload, payload_data, shrink, with_data}
use inc_someip_gateway.Someip.Samples.{ServiceConfig}

-- `forward_to_vsomeip`.
unfoldable pub forward_to_vsomeip : ServiceConfig → ℕ → ℕ → Payload → Outcome Payload PreSerialized
forward_to_vsomeip service instance_id event_id p = elim (get_elem? service.events event_id) [
  | none ↦ drops
  | some e ↦
      if ltb (length (payload_data p)) full_header_size
      then faults
      else notifies service.service_id instance_id e.event_id
          (drop full_header_size (payload_data p))
]

-- `vsomeip::message`.
pub record VsomeipMessage : Type 0 where
  pub service : ℕ
  pub client : ℕ
  pub session : ℕ
  pub protocol_version : ℕ
  pub interface_version : ℕ
  pub message_type : ℕ
  pub return_code : ℕ
  pub payload : List ℕ

unfoldable pub message_header : ℕ → VsomeipMessage → List ℕ
message_header vsomeip_event_id msg =
    two_bytes msg.service
    ++ two_bytes vsomeip_event_id
    ++ four_bytes ((length msg.payload + 8) % 2 ^ 32)
    ++ two_bytes msg.client
    ++ two_bytes msg.session
    ++ (msg.protocol_version % 256)
      ∷ (msg.interface_version % 256)
      ∷ (msg.message_type % 256)
      ∷ (msg.return_code % 256)
      ∷ []

-- The message handler of an event. The copy of the payload is not checked against the size of the slot.
unfoldable pub handle_message :
    ℕ → ℕ → Option Payload → VsomeipMessage → Outcome Payload PreSerialized
handle_message socom_event_id vsomeip_event_id none msg = drops
handle_message socom_event_id vsomeip_event_id (some p) msg =
    elim (write_bytes 0 (message_header vsomeip_event_id msg) (payload_data p)) [
      | none ↦ faults
      | some m ↦
          let size = length msg.payload in
          if ltb (length m - full_header_size) size
          then faults
          else updates socom_event_id
              (shrink (full_header_size + size) (
                with_data (take full_header_size m ++ copy_to msg.payload (drop full_header_size m))
                  p)).0
    ]
