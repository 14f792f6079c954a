-- ===== src/Binding/Services.antt =====
-- The handlers for requests and offers of services. `none` stands for a failed assertion: a missing
-- connection, key or slot manager. `accepts` tells whether a channel takes what is sent on it, and
-- `made` is what `make_client_connector` gives, after the callbacks that it makes on the way.
use inc_someip_gateway.Base.{
  ℕ, Bool, true, false, not, List, [], ◌∷◌, ◌++◌, Option, none, some, if◌then◌else◌, nat_eq,
}
use inc_someip_gateway.Map.{Map, find, insert_or_assign, keys}
use inc_someip_gateway.Wire.{
  Service, InstanceId, Metadata, connect_reply, request_service, connect_service,
}
use inc_someip_gateway.Keys
use inc_someip_gateway.SlotManager.Factory.{MemoryFactory}
use inc_someip_gateway.MemoryManagers.{get_shared_memory_metadata}
use inc_someip_gateway.ServiceState.{ServiceState, Counts, send_connect_service}
use inc_someip_gateway.ServiceStates.{
  process_offer, process_request_service, clear_event_subscriptions, has_client_connector,
}
use inc_someip_gateway.ConnectionMetadata
use inc_someip_gateway.Binding.{
  Binding, Pending, Output, sends, send_to_all, destroyed_if, get_reply_channel, emplace_pending,
  clear_pending_connects_for_key, clear_pending_connects_for_key_locked,
}

-- A handler's result.
abbrev pub Step : Type 0
Step = Option (Binding × List Output)

unfoldable pub then_run : Step → (Binding → Step) → Step
then_run none f = none
then_run (some (b, outputs)) f = elim (f b) [
  | none ↦ none
  | some (b', later) ↦ some (b', outputs ++ later)
]

-- The connect messages of one call of `send_connect_service`.
unfoldable pub connect_outputs :
    Map ℕ ℕ → Service → InstanceId → Metadata → List (ℕ × ℕ) → Option (List Output)
connect_outputs connections service instance_id metadata [] = some []
connect_outputs connections service instance_id metadata ((client_id, required_id) ∷ rest) =
    let later = connect_outputs connections service instance_id metadata rest in
    elim (get_reply_channel client_id connections) [
      | none ↦ none
      | some channel ↦ elim later [
        | none ↦ none
        | some outputs ↦ some (
            sends channel (connect_service service instance_id required_id metadata true) ∷ outputs)
      ]
    ]

unfoldable pub emplace_attempts : ℕ → List (ℕ × ℕ) → Map ℕ Pending → Map ℕ Pending
emplace_attempts key [] pending = pending
emplace_attempts key ((client_id, required_id) ∷ rest) pending =
    emplace_attempts key rest
      (emplace_pending required_id (record { key = key; client_id = client_id }) pending)

unfoldable pub channel_accepts : (ℕ → Bool) → Map ℕ ℕ → ℕ → Bool
channel_accepts accepts connections client_id = elim (get_reply_channel client_id connections) [
  | none ↦ false
  | some channel ↦ accepts channel
]

unfoldable pub maybe_send_connect_service_locked : MemoryFactory → (ℕ → Bool) → ℕ → Binding → Step
unfolding connect_outputs emplace_attempts channel_accepts
maybe_send_connect_service_locked f accepts key b = elim (find key b.states) [
  | none ↦ some (b, [])
  | some state ↦
      let (state', next, attempts) =
        send_connect_service (channel_accepts accepts b.connections) b.next_local_id state in
      let stored = record b {
        states = insert_or_assign key state' b.states;
        next_local_id = next;
        pending_connects = emplace_attempts key attempts b.pending_connects;
      } in
      elim attempts [
        | [] ↦ some (stored, [])
        | a ∷ rest ↦ elim (get_shared_memory_metadata f b.keys key b.managers) [
          | none ↦ none
          | some (managers, metadata) ↦
              elim (connect_outputs b.connections state.service state.instance_id metadata
                (a ∷ rest)) [
                  | none ↦ none
                  | some outputs ↦ some (record stored { managers = managers }, outputs)
                ]
        ]
      ]
]

-- `m_keys.get` on the binding's keys.
unfoldable pub key_of : Service → InstanceId → Binding → Binding × ℕ
key_of service instance_id b =
    let (keys, key) = Keys.get service instance_id b.keys in (record b { keys = keys }, key)

unfoldable pub handle_offer_service :
    MemoryFactory → (ℕ → Bool) → ℕ → Service → InstanceId → Bool → Binding → Step
unfolding key_of
handle_offer_service f accepts client_id service instance_id offered b =
    let (b', key) = key_of service instance_id b in
    let (states, removed) = process_offer key client_id service instance_id offered b'.states in
    if offered
    then maybe_send_connect_service_locked f accepts key (record b' { states = states })
    else some (
      clear_pending_connects_for_key_locked key client_id (record b' {
        states = clear_event_subscriptions key states;
        id_mapping = ConnectionMetadata.remove_service key b'.id_mapping;
      }),
      destroyed_if removed,
    )

-- The binding, and whether the message was sent.
unfoldable pub send_request_service_locked :
    Service → InstanceId → Bool → Binding → Binding × Bool × List Output
unfolding key_of
send_request_service_locked service instance_id in_use b =
    let (b', key) = key_of service instance_id b in
    if has_client_connector key b'.states
    then (b', false, [])
    else (b', true, send_to_all (request_service service instance_id in_use) b'.connections)

unfoldable pub send_request_service :
    MemoryFactory → (ℕ → Bool) → Service → InstanceId → Counts → Bool → Binding → Step
unfolding send_request_service_locked key_of
send_request_service f accepts service instance_id counts in_use b =
    let (b', sent, outputs) = send_request_service_locked service instance_id in_use b in
    if not sent
    then some (b', outputs)
    else (let (b'', key) = key_of service instance_id b' in
        let (states, kept, removed) =
          process_request_service key service instance_id counts in_use b''.states in
        if kept
        then then_run (some (record b'' { states = states }, outputs))
            (maybe_send_connect_service_locked f accepts key)
        else some (
          record b'' {
            states = states;
            id_mapping = ConnectionMetadata.remove_service key b''.id_mapping;
            pending_connects = clear_pending_connects_for_key key b''.pending_connects;
          },
          outputs ++ destroyed_if removed,
        ))

-- The requests that `handle_connect_message` sends again.
unfoldable pub requests_of : ℕ → Map ℕ ServiceState → List Output
requests_of channel [] = []
requests_of channel ((key, s) ∷ rest) =
    let later = requests_of channel rest in
    if s.requested
    then sends channel (request_service s.service s.instance_id true) ∷ later
    else later

unfoldable pub handle_connect : ℕ → Binding → Binding × List Output
unfolding requests_of
handle_connect channel b = (b, sends channel (connect_reply true) ∷ requests_of channel b.states)

-- One state in the loop of `handle_connect_reply_message`.
unfoldable pub reply_to_state : MemoryFactory → (ℕ → Bool) → ℕ → Binding → Step
unfolding send_request_service_locked
reply_to_state f accepts key b = elim (find key b.states) [
  | none ↦ some (b, [])
  | some s ↦
      let (b', sent, outputs) = send_request_service_locked s.service s.instance_id true b in
      then_run (if s.requested then some (b', outputs) else some (b, []))
        (maybe_send_connect_service_locked f accepts key)
]

unfoldable pub reply_to_states : MemoryFactory → (ℕ → Bool) → List ℕ → Binding → Step
reply_to_states f accepts [] b = some (b, [])
reply_to_states f accepts (key ∷ rest) b =
    then_run (reply_to_state f accepts key b) (reply_to_states f accepts rest)

unfoldable pub handle_connect_reply : MemoryFactory → (ℕ → Bool) → Bool → Binding → Step
handle_connect_reply f accepts status b =
    if status then reply_to_states f accepts (keys b.states) b else some (b, [])
