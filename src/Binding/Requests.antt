-- ===== src/Binding/Requests.antt =====
-- `handle_request_service_message`, and the callback for a change of a service's state that it gives
-- to the client connector.
use inc_someip_gateway.Base.{
  ℕ, Bool, true, false, not, ◌||◌, List, [], ◌∷◌, Option, none, some, if◌then◌else◌, value_or,
  nat_eq,
}
use inc_someip_gateway.Map.{Map, find, insert_or_assign}
use inc_someip_gateway.Wire.{Service, InstanceId, offer_service}
use inc_someip_gateway.Keys
use inc_someip_gateway.ServiceState.{Counts}
use inc_someip_gateway.ServiceStates.{
  ServiceStates, has_client_connector, has_connector, mark_client_connector_pending,
  clear_client_connector_pending, add_client_connector, add_service,
  remove_event_subscriptions_for_client,
}
use inc_someip_gateway.ConnectionMetadata
use inc_someip_gateway.Binding.{
  Binding, Output, sends, outputs_of, get_reply_channel, clear_pending_connects_for_key_locked,
  insert_client, erase_client,
}
use inc_someip_gateway.Binding.Services.{Step, key_of}

-- The branch for a service that is no longer in use.
unfoldable pub release_request : ℕ → ℕ → Binding → Binding × List Output
release_request client_id key b =
    let (states, told) = remove_event_subscriptions_for_client client_id b.states in
    let cleared = clear_pending_connects_for_key_locked key client_id (record b {
      states = states;
      id_mapping = ConnectionMetadata.remove_mapping_for_client_and_key client_id key b.id_mapping;
    }) in
    (
      record cleared {
        interested_peers =
            insert_or_assign key
              (erase_client client_id (value_or (find key b.interested_peers) []))
              b.interested_peers;
      },
      outputs_of told,
    )

-- Whether the key is a local request.
unfoldable pub is_requested : ℕ → ServiceStates → Bool
is_requested key states = elim (find key states) [ none ↦ false | some s ↦ s.requested ]

-- The client connector for a key. `callbacks` is what the runtime does to the binding during
-- `make_client_connector`, and `made` the connector that it gives.
unfoldable pub request_connector :
    (Binding → Step) → Option ℕ → ℕ → Service → InstanceId → Binding → Step
request_connector callbacks made key service instance_id b =
    let marked = record b {
      states = mark_client_connector_pending key service instance_id b.states;
    } in
    elim (callbacks marked) [
      | none ↦ none
      | some (b', outputs) ↦ elim made [
        | none ↦ some (record b' { states = clear_client_connector_pending key b'.states }, outputs)
        | some connector ↦
            some (record b' { states = add_client_connector key connector b'.states }, outputs)
      ]
    ]

unfoldable pub handle_request_service :
    (Binding → Step) → Option ℕ → ℕ → ℕ → Service → InstanceId → Bool → Binding → Step
unfolding key_of release_request is_requested
handle_request_service callbacks made client_id channel service instance_id in_use b =
    let (b', key) = key_of service instance_id b in
    let interested = record b' {
      interested_peers =
          insert_or_assign key
            (insert_client client_id (value_or (find key b'.interested_peers) []))
            b'.interested_peers;
    } in
    if not in_use
    then some (release_request client_id key b')
    else if value_or (find key b'.local_offers) false
    then some (interested, sends channel (offer_service service instance_id true) ∷ [])
    else if has_client_connector key b'.states
        || has_connector key b'.states
        || is_requested key b'.states
    then some (interested, [])
    else request_connector callbacks made key service instance_id interested

-- The offers that go to the interested peers.
unfoldable pub offer_to_peers :
    Service → InstanceId → Bool → Map ℕ ℕ → List ℕ → Option (List Output)
offer_to_peers service instance_id available connections [] = some []
offer_to_peers service instance_id available connections (client_id ∷ rest) =
    let later = offer_to_peers service instance_id available connections rest in
    elim (get_reply_channel client_id connections) [
      | none ↦ none
      | some channel ↦ elim later [
        | none ↦ none
        | some outputs ↦
            some (sends channel (offer_service service instance_id available) ∷ outputs)
      ]
    ]

-- `service_state_change`.
unfoldable pub on_service_state_change : ℕ → Bool → Counts → Binding → Step
on_service_state_change key is_available counts b =
    let mapping =
      if is_available then b.id_mapping else ConnectionMetadata.remove_service key b.id_mapping in
    elim (Keys.get_pair key b.keys) [
      | none ↦ none
      | some (service, instance_id) ↦
          elim (offer_to_peers service instance_id is_available b.connections
            (value_or (find key b.interested_peers) [])) [
              | none ↦ none
              | some outputs ↦ some (
                record b {
                  id_mapping = mapping;
                  local_offers = insert_or_assign key is_available b.local_offers;
                  states = add_service key service instance_id counts b.states;
                  interested_peers =
                      insert_or_assign key (value_or (find key b.interested_peers) [])
                        b.interested_peers;
                },
                outputs,
              )
            ]
    ]
