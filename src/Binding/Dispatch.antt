-- ===== src/Binding/Dispatch.antt =====
-- `on_receive_message`, after `check_and_cast` of Wire/Frame has given the message. `f`, `accepts`,
-- `callbacks` and `made` are those of the handlers.
use inc_someip_gateway.Base.{ℕ, Bool, [], Option, some}
use inc_someip_gateway.Wire.{
  Message, connect, connect_reply, request_service, offer_service, connect_service,
  connect_service_reply, subscribe_event, event_update, payload_consumed,
}
use inc_someip_gateway.SlotManager.Factory.{MemoryFactory}
use inc_someip_gateway.Binding.{Binding}
use inc_someip_gateway.Binding.Services.{
  Step, handle_offer_service, handle_connect, handle_connect_reply,
}
use inc_someip_gateway.Binding.Requests.{handle_request_service}
use inc_someip_gateway.Binding.Handshake.{handle_connect_service, handle_connect_service_reply}
use inc_someip_gateway.Binding.Events.{
  handle_subscribe_event, handle_event_update, handle_payload_consumed,
}

unfoldable pub on_receive_message :
    MemoryFactory → (ℕ → Bool) → (Binding → Step) → Option ℕ → ℕ → ℕ → Message → Binding → Step
on_receive_message f accepts callbacks made client_id channel (connect configs) b =
    some (handle_connect channel b)
on_receive_message f accepts callbacks made client_id channel (connect_reply status) b =
    handle_connect_reply f accepts status b
on_receive_message f accepts callbacks made client_id channel
      (connect_service service instance_id required_id metadata in_use) b =
    handle_connect_service f client_id channel service instance_id required_id metadata in_use b
on_receive_message f accepts callbacks made client_id channel
      (connect_service_reply required_id provided_id metadata num_methods num_events) b =
    handle_connect_service_reply f client_id required_id provided_id metadata num_methods num_events
      b
on_receive_message f accepts callbacks made client_id channel
      (request_service service instance_id in_use) b =
    handle_request_service callbacks made client_id channel service instance_id in_use b
on_receive_message f accepts callbacks made client_id channel
      (offer_service service instance_id offered) b =
    handle_offer_service f accepts client_id service instance_id offered b
on_receive_message f accepts callbacks made client_id channel
      (subscribe_event provided_id event_id wanted) b =
    some (handle_subscribe_event client_id provided_id event_id wanted b)
on_receive_message f accepts callbacks made client_id channel
      (event_update required_id event_id handle) b =
    handle_event_update f client_id required_id event_id handle b
on_receive_message f accepts callbacks made client_id channel (payload_consumed required_id handle)
      b =
    some (handle_payload_consumed client_id required_id handle b, [])
