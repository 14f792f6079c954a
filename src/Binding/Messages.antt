-- ===== src/Binding/Messages.antt =====
-- The mappings of a binding under every message that it receives.
use inc_someip_gateway.Base.{
  ℕ, ◌≡◌, Bool, true, false, ◌||◌, List, [], Option, some, value_or, arith, nat_eq, Option-cases,
  Bool-cases, inl, inr,
}
use inc_someip_gateway.Map.{find, insert_or_assign}
use inc_someip_gateway.Wire.{
  Service, InstanceId, Message, connect, connect_reply, request_service, offer_service,
  connect_service, connect_service_reply, subscribe_event, event_update, payload_consumed,
}
use inc_someip_gateway.Keys
use inc_someip_gateway.SlotManager.Factory.{MemoryFactory}
use inc_someip_gateway.ServiceStates.{
  has_client_connector, has_connector, mark_client_connector_pending,
}
use inc_someip_gateway.ConnectionMetadata.{get_by_local_handle, get_by_remote_handle}
use inc_someip_gateway.ConnectionMetadata.Consistency.{
  IsIndexed, removes_for_client_and_key, modify, modify-IsIndexed,
}
use inc_someip_gateway.Binding.{
  Binding, Output, clear_pending_connects_for_key_locked, insert_client,
}
use inc_someip_gateway.Binding.Services.{Step, key_of, handle_connect}
use inc_someip_gateway.Binding.Requests.{
  release_request, is_requested, request_connector, handle_request_service,
}
use inc_someip_gateway.Binding.Events.{handle_subscribe_event, handle_payload_consumed}
use inc_someip_gateway.Binding.Dispatch.{on_receive_message}
use inc_someip_gateway.Binding.Callbacks.{Callback, run_callbacks, run_callbacks-Keeps}
use inc_someip_gateway.Binding.Mappings.{
  Keeps, handle_offer_service-Keeps, handle_connect_service-Keeps,
  handle_connect_service_reply-Keeps,
}
use inc_someip_gateway.Binding.Unchanged.{handle_connect_reply-Leaves, handle_event_update-Leaves}

request_connector-Keeps :
    (callbacks : Binding → Step) (made : Option ℕ) (key : ℕ) (s : Service) (i : InstanceId)
    (b : Binding)
    → ((c : Binding) → IsIndexed c.id_mapping → Keeps (callbacks c))
    → IsIndexed b.id_mapping
    → Keeps (request_connector callbacks made key s i b)
unfolding request_connector
request_connector-Keeps callbacks made key s i b kept v b' o e =
    let marked : Binding = record b { states = mark_client_connector_pending key s i b.states } in
    elim (Option-cases (callbacks marked)) [
      | inl missing ↦ absurd (ground arith)
      | inr ((c, outputs), ran) ↦
          let after : IsIndexed c.id_mapping = kept marked v c outputs ran in
          let same : b'.id_mapping ≡ c.id_mapping = elim (Option-cases made) [
            | inl none_made ↦ ground arith
            | inr (connector, given) ↦ ground arith
          ] in
          rw same after
    ]

handle_request_service-Keeps :
    (callbacks : Binding → Step) (made : Option ℕ) (client_id channel : ℕ) (s : Service)
    (i : InstanceId) (in_use : Bool) (b : Binding)
    → ((c : Binding) → IsIndexed c.id_mapping → Keeps (callbacks c))
    → IsIndexed b.id_mapping
    → Keeps (handle_request_service callbacks made client_id channel s i in_use b)
unfolding handle_request_service release_request key_of clear_pending_connects_for_key_locked modify
handle_request_service-Keeps callbacks made client_id channel s i false b kept v b' o e =
    let key = (Keys.get s i b.keys).1 in
    ground (arith, modify-IsIndexed (removes_for_client_and_key client_id key) b.id_mapping v)
handle_request_service-Keeps callbacks made client_id channel s i true b kept v b' o e =
    let key = (Keys.get s i b.keys).1 in
    let b1 : Binding = record b { keys = (Keys.get s i b.keys).0 } in
    let interested : Binding = record b1 {
      interested_peers =
          insert_or_assign key
            (insert_client client_id (value_or (find key b1.interested_peers) []))
            b1.interested_peers;
    } in
    let requesting = request_connector-Keeps callbacks made key s i interested kept v in
    elim (Bool-cases (value_or (find key b1.local_offers) false)) [
      | inl offered ↦ let same : b'.id_mapping ≡ b.id_mapping = ground arith in rw same v
      | inr missing ↦
          elim (Bool-cases (
            has_client_connector key b1.states
            || has_connector key b1.states
            || is_requested key b1.states)) [
              | inl there ↦ let same : b'.id_mapping ≡ b.id_mapping = ground arith in rw same v
              | inr fresh ↦ requesting b' o (ground arith)
            ]
    ]

-- Whatever message a client sends, and whatever changes of a service's state, requests of services
-- and updates of events the runtime reports by callbacks while a client connector is made for it: if
-- the index of the binding's mappings agrees with the mappings before, and no assertion fails, it
-- agrees with them after the message is handled.
pub on_receive_message-IsIndexed :
    (f : MemoryFactory) (accepts : ℕ → Bool) (callbacks : List Callback) (made : Option ℕ)
    (client_id channel : ℕ) (msg : Message) (b b' : Binding) (o : List Output)
    → IsIndexed b.id_mapping
    → on_receive_message f accepts (run_callbacks f accepts callbacks) made client_id channel msg b
      ≡ some (b', o)
    → IsIndexed b'.id_mapping
unfolding on_receive_message handle_connect handle_subscribe_event handle_payload_consumed
on_receive_message-IsIndexed f accepts callbacks made client_id channel (connect configs) b b' o v
      e =
    let same : b'.id_mapping ≡ b.id_mapping = ground arith in rw same v
on_receive_message-IsIndexed f accepts callbacks made client_id channel (connect_reply status) b b'
      o v e =
    rw (handle_connect_reply-Leaves f accepts status b b' o e) v
on_receive_message-IsIndexed f accepts callbacks made client_id channel
      (connect_service s i required_id md in_use) b b' o v e =
    handle_connect_service-Keeps f client_id channel s i required_id md in_use b v b' o e
on_receive_message-IsIndexed f accepts callbacks made client_id channel
      (connect_service_reply required_id provided_id md methods events) b b' o v e =
    handle_connect_service_reply-Keeps f client_id required_id provided_id methods events md b v b'
      o e
on_receive_message-IsIndexed f accepts callbacks made client_id channel (request_service s i in_use)
      b b' o v e =
    handle_request_service-Keeps (run_callbacks f accepts callbacks) made client_id channel s i
      in_use b (run_callbacks-Keeps f accepts callbacks) v b' o e
on_receive_message-IsIndexed f accepts callbacks made client_id channel (offer_service s i offered)
      b b' o v e =
    handle_offer_service-Keeps f accepts client_id s i offered b v b' o e
on_receive_message-IsIndexed f accepts callbacks made client_id channel
      (subscribe_event provided_id event_id wanted) b b' o v e =
    elim (Option-cases (get_by_local_handle client_id provided_id b.id_mapping)) [
      | inl missing ↦ let same : b'.id_mapping ≡ b.id_mapping = ground arith in rw same v
      | inr (ids, mapped) ↦ let same : b'.id_mapping ≡ b.id_mapping = ground arith in rw same v
    ]
on_receive_message-IsIndexed f accepts callbacks made client_id channel
      (event_update required_id event_id handle) b b' o v e =
    rw (handle_event_update-Leaves f client_id required_id event_id handle b b' o e) v
on_receive_message-IsIndexed f accepts callbacks made client_id channel
      (payload_consumed required_id handle) b b' o v e =
    elim (Option-cases (get_by_remote_handle client_id required_id b.id_mapping)) [
      | inl missing ↦ let same : b'.id_mapping ≡ b.id_mapping = ground arith in rw same v
      | inr (ids, mapped) ↦ let same : b'.id_mapping ≡ b.id_mapping = ground arith in rw same v
    ]
