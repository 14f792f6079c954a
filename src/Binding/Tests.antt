-- ===== src/Binding/Tests.antt =====
-- A binding with one client, that offers and subscribes, and has a pending connect.
use inc_someip_gateway.Base.{
  ℕ, List, ◌≡◌, refl, true, false, [], ◌∷◌, none, some, arith, value_or, nat_eq, keep_if,
}
use inc_someip_gateway.Map.{find, insert_or_assign, erase, map_values}
use inc_someip_gateway.Strings.{list_beq}
use inc_someip_gateway.Wire.{service_beq, Metadata, Message, event_update, request_service}
use inc_someip_gateway.MemoryManagers.{
  Managers, get_shared_memory_metadata, get_shared_memory_slot_manager, metadata_of_manager,
}
use inc_someip_gateway.ServiceStates.{
  has_client_connector, has_connector, mark_client_connector_pending,
  remove_event_subscriptions_for_client, drop_client_subscriptions,
}
use inc_someip_gateway.SlotManager.{make_manager}
use inc_someip_gateway.SlotManager.Factory.{MemoryFactory}
use inc_someip_gateway.Keys.{no_keys}
use inc_someip_gateway.Allocations.{Payload, no_allocation}
use inc_someip_gateway.ServiceState.{
  ServiceState, remove_event_subscriptions, remove_endpoints, without_client,
}
use inc_someip_gateway.ServiceState.Subscriptions.{is_subscribed}
use inc_someip_gateway.ConnectionMetadata.{
  Ids, no_connections, append_mapping, add_mapping, is_mapping_present, find_conflict,
}
use inc_someip_gateway.Binding.{
  Binding, Pending, Output, sends, makes_server_connector, get_reply_channel, insert_client,
  has_client, clear_pending_connects_for_key_locked,
}
use inc_someip_gateway.Keys
use inc_someip_gateway.Keys.{known_key, new_key, get_next_id}
use inc_someip_gateway.ConnectionMetadata.Consistency.{
  IsIndexed, adds, apply, apply-IsIndexed, no_connections-IsIndexed,
}
use inc_someip_gateway.Binding.Services.{Step, key_of, then_run}
use inc_someip_gateway.Binding.Dispatch.{on_receive_message}
use inc_someip_gateway.Binding.Callbacks.{Callback, changes_state, run_callback, run_callbacks}
use inc_someip_gateway.Binding.Messages.{on_receive_message-IsIndexed}
use inc_someip_gateway.Binding.Clients.{remove_client}
use inc_someip_gateway.Binding.Requests.{
  release_request, handle_request_service, request_connector, on_service_state_change,
  offer_to_peers, is_requested,
}
use inc_someip_gateway.Binding.Handshake.{handle_connect_service_reply}
use inc_someip_gateway.Binding.Replies.{reply_answered_once}
use inc_someip_gateway.Binding.Cleanup.{
  IsTabled, IsForgotten, remove_client-IsForgotten, release_request_unsubscribes,
}

abbrev radar : ServiceState
radar = record {
  service = record { service_id = b'r' ∷ []; major = 1; minor = 0 };
  instance_id = b'f' ∷ [];
  counts = record { num_methods = 0; num_events = 6 };
  requested = true;
  offers = (7, record { offered = true; connect_sent = true; required_id = 1 }) ∷ [];
  client_connector = none;
  client_connector_pending = false;
  enabled_connector = some 4;
  event_subscriptions = (5, record { client_id = 7; provided_id = 1 } ∷ []) ∷ [];
}

abbrev with_client : Binding
with_client = record {
  keys = no_keys;
  connections = (7, 70) ∷ [];
  managers = record { configuration = []; slot_managers = []; allocations = []; read_only = [] };
  states = (0, radar) ∷ [];
  id_mapping = no_connections;
  local_offers = [];
  pending_connects = (1, record { key = 0; client_id = 7 }) ∷ [];
  interested_peers = (0, 7 ∷ []) ∷ [];
  next_local_id = 2;
}

with_client-IsTabled : IsTabled with_client
unfolding find
with_client-IsTabled = record {
  pending = (refl, tt);
  peers = (refl, tt);
  indices = tt;
  events = λ key s e. ground arith;
}

remove_client-IsForgotten_example :
    IsForgotten 7 (remove_client 7 with_client).0
    × ((remove_client 7 with_client).0.managers ≡ with_client.managers)
remove_client-IsForgotten_example = remove_client-IsForgotten 7 with_client with_client-IsTabled

abbrev without_subscriptions : ServiceState
without_subscriptions = record radar { event_subscriptions = [] }

release_request_unsubscribes_example :
    is_subscribed (record { client_id = 7; provided_id = 1 }) 5 [] ≡ false
unfolding release_request clear_pending_connects_for_key_locked
    remove_event_subscriptions_for_client drop_client_subscriptions remove_event_subscriptions
    remove_endpoints without_client find map_values keep_if
release_request_unsubscribes_example =
    release_request_unsubscribes 7 1 0 1 5 with_client without_subscriptions with_client-IsTabled
      refl

abbrev memory : MemoryFactory
memory = record { create_and_allocate = λ path size. some 1000; open_read_only = λ path. some 5000 }

abbrev remote : Metadata
remote = record { path = b'/' ∷ b'x' ∷ []; slot_size = 16; slot_count = 2 }

abbrev managers : Managers
managers = record {
  configuration = [];
  slot_managers = (0, make_manager 16 2 1000 (b'/' ∷ b'r' ∷ [])) ∷ [];
  allocations = [];
  read_only = [];
}

abbrev awaiting : Binding
awaiting = record with_client { managers = managers }

abbrev connection : Ids
connection = record {
  key = 0;
  local_handle = 3;
  remote_handle = 1;
  local_metadata = record { path = b'/' ∷ b'r' ∷ []; slot_size = 16; slot_count = 2 };
  remote_metadata = remote;
}

abbrev connected : Binding
connected = record awaiting {
  pending_connects = [];
  id_mapping = append_mapping 7 connection no_connections;
}

abbrev connector : Output
connector = makes_server_connector 0 radar.service radar.instance_id 0 6

reply_answered_once_example :
    ((p : Pending) × (s : ServiceState) × (find 1 awaiting.pending_connects ≡ some p)
      × (p.client_id ≡ 7)
      × (find p.key awaiting.states ≡ some s)
      × (connector ∷ [] ≡ makes_server_connector p.key s.service s.instance_id 0 6 ∷ []))
    × ((g : MemoryFactory) (other provided methods events : ℕ) (md : Metadata)
        → handle_connect_service_reply g other 1 provided md methods events connected
          ≡ some (connected, []))
unfolding handle_connect_service_reply find erase add_mapping is_mapping_present find_conflict
    get_shared_memory_metadata get_shared_memory_slot_manager metadata_of_manager make_manager
reply_answered_once_example =
    reply_answered_once memory 7 1 3 0 6 remote awaiting connected connector [] refl

abbrev sample : Payload
sample = record { slot_handle = 1; size = 10 }

abbrev updated : Binding
updated = record connected {
  managers = record managers {
    allocations =
        (0, no_allocation ∷ record { payload = some sample; pending_consumers = 1 } ∷ []) ∷ [];
  };
}

abbrev update : Output
update = sends 70 (event_update 1 5 (record { slot_index = 1; used_bytes = 10 }))

connected-IsIndexed : IsIndexed connected.id_mapping
connected-IsIndexed =
    apply-IsIndexed (adds 7 connection) no_connections connected.id_mapping no_connections-IsIndexed
      (unfold apply add_mapping is_mapping_present find_conflict find in refl)

-- The binding knows the key of the service, which no one offers yet.
abbrev unoffered : Binding
unoffered = record connected {
  keys = (Keys.get radar.service radar.instance_id no_keys).0;
  states = [];
  interested_peers = [];
}

-- The peer requests the service; while the client connector is made, the service goes.
abbrev wants : Message
wants = request_service radar.service radar.instance_id true

abbrev goes : Callback
goes = changes_state 0 false radar.counts

abbrev answered : Step
answered =
    on_receive_message memory (λ channel. true) (run_callbacks memory (λ channel. true) (goes ∷ []))
      (some 9) 7 70 wants unoffered

abbrev afterwards : Binding × List Output
afterwards = value_or answered (unoffered, [])

on_receive_message-IsIndexed_example : IsIndexed afterwards.0.id_mapping
unfolding on_receive_message handle_request_service request_connector run_callbacks run_callback
    then_run on_service_state_change offer_to_peers get_reply_channel key_of Keys.get Keys.get_pair
    known_key new_key get_next_id find insert_or_assign has_client_connector has_connector
    is_requested mark_client_connector_pending insert_client has_client Keys.find_service
    Keys.find_instance service_beq list_beq
on_receive_message-IsIndexed_example =
    on_receive_message-IsIndexed memory (λ channel. true) (goes ∷ []) (some 9) 7 70 wants unoffered
      afterwards.0 afterwards.1 connected-IsIndexed refl
