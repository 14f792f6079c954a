-- ===== src/Binding/Handshake.antt =====
-- `handle_connect_service_message` and `handle_connect_service_reply_message`.
use inc_someip_gateway.Base.{
  ℕ, Bool, not, List, [], ◌∷◌, ◌++◌, Option, none, some, if◌then◌else◌, ◌==◌, nat_eq,
}
use inc_someip_gateway.Map.{find, erase}
use inc_someip_gateway.Wire.{Service, InstanceId, Metadata, connect_service_reply}
use inc_someip_gateway.Keys.{get_next_id}
use inc_someip_gateway.SlotManager.Factory.{MemoryFactory}
use inc_someip_gateway.MemoryManagers.{get_shared_memory_metadata}
use inc_someip_gateway.ServiceStates.{
  ServiceStates, Told, remove_event_subscriptions_for_connection, remove_client_connector,
  add_server_connector,
}
use inc_someip_gateway.ConnectionMetadata.{Ids, get_by_remote_handle, add_mapping}
use inc_someip_gateway.ConnectionMetadata
use inc_someip_gateway.Binding.{
  Binding, Output, sends, outputs_of, destroyed_if, makes_server_connector,
  clear_pending_connects_for_key_locked,
}
use inc_someip_gateway.Binding.Services.{Step, key_of}

-- What is left of the client's subscriptions when the mapping it names is found.
unfoldable pub subscriptions_after : ℕ → ℕ → Option Ids → ServiceStates → ServiceStates × Told
subscriptions_after client_id key none states = (states, [])
subscriptions_after client_id key (some ids) states =
    remove_event_subscriptions_for_connection key client_id ids.local_handle states

-- The branch for a service that is no longer in use.
unfoldable pub disconnect_service : ℕ → ℕ → ℕ → Binding → Binding × List Output
unfolding subscriptions_after
disconnect_service client_id key required_id b =
    let (states, told) =
      subscriptions_after client_id key (get_by_remote_handle client_id required_id b.id_mapping)
        b.states in
    let (states', removed) = remove_client_connector key states in
    (
      clear_pending_connects_for_key_locked key client_id (record b {
        states = states';
        id_mapping = ConnectionMetadata.remove_mapping client_id required_id b.id_mapping;
      }),
      outputs_of told ++ destroyed_if removed,
    )

unfoldable pub accept_service : MemoryFactory → ℕ → ℕ → ℕ → ℕ → Metadata → Binding → Step
unfolding get_next_id
accept_service f client_id channel key required_id metadata b =
    let (local_handle, next) = get_next_id b.next_local_id in
    elim (get_shared_memory_metadata f b.keys key b.managers) [
      | none ↦ none
      | some (managers, local_metadata) ↦ elim (find key b.states) [
        | none ↦ none
        | some s ↦
            elim (add_mapping client_id
              (record {
                key = key;
                local_handle = local_handle;
                remote_handle = required_id;
                local_metadata = local_metadata;
                remote_metadata = metadata;
              })
              b.id_mapping) [
                | none ↦ none
                | some id_mapping ↦ some (
                  record b { next_local_id = next; managers = managers; id_mapping = id_mapping },
                  sends channel (
                        connect_service_reply required_id local_handle local_metadata
                          s.counts.num_methods s.counts.num_events)
                      ∷ [],
                )
              ]
      ]
    ]

unfoldable pub handle_connect_service :
    MemoryFactory → ℕ → ℕ → Service → InstanceId → ℕ → Metadata → Bool → Binding → Step
unfolding key_of disconnect_service accept_service
handle_connect_service f client_id channel service instance_id required_id metadata in_use b =
    let (b', key) = key_of service instance_id b in
    if in_use
    then accept_service f client_id channel key required_id metadata b'
    else some (disconnect_service client_id key required_id b')

-- The part under the mutex. It ends with the making of a server connector.
unfoldable pub handle_connect_service_reply :
    MemoryFactory → ℕ → ℕ → ℕ → Metadata → ℕ → ℕ → Binding → Step
handle_connect_service_reply f client_id required_id provided_id metadata num_methods num_events b =
    elim (find required_id b.pending_connects) [
      | none ↦ some (b, [])
      | some pending ↦
          if not (pending.client_id == client_id)
          then some (b, [])
          else elim (find pending.key b.states) [
            | none ↦ some (record b { pending_connects = erase required_id b.pending_connects }, [])
            | some s ↦ elim (get_shared_memory_metadata f b.keys pending.key b.managers) [
              | none ↦ none
              | some (managers, local_metadata) ↦
                  elim (add_mapping client_id
                    (record {
                      key = pending.key;
                      local_handle = provided_id;
                      remote_handle = required_id;
                      local_metadata = local_metadata;
                      remote_metadata = metadata;
                    })
                    b.id_mapping) [
                      | none ↦ none
                      | some id_mapping ↦ some (
                        record b {
                          managers = managers;
                          pending_connects = erase required_id b.pending_connects;
                          id_mapping = id_mapping;
                        },
                        makes_server_connector pending.key s.service s.instance_id num_methods
                              num_events
                            ∷ [],
                      )
                    ]
            ]
          ]
    ]

-- The part after it, with the connector that was made and enabled.
unfoldable pub store_server_connector : ℕ → Option ℕ → Binding → Binding
store_server_connector key none b = b
store_server_connector key (some connector) b = record b {
  states = add_server_connector key connector b.states;
}
