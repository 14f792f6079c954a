-- ===== src/Channel.antt =====
-- The ends of the channel between two bindings: `Gateway_ipc_binding_server_impl` of
-- score/gateway_ipc_binding/impl/gateway_ipc_binding_server.cpp and `Gateway_ipc_binding_client_impl`
-- of score/gateway_ipc_binding/impl/gateway_ipc_binding_client.cpp. What they ask of the binding is
-- listed in order. A connection and the identity of a client are numbers, and so is a service that a
-- client looks for; `M` is the type of the messages.
pub mod Announcements
pub mod Registered
pub mod Peer
mod Tests
use inc_someip_gateway.Base.{
  ℕ, ◌+◌, ◌%◌, ◌^◌, Bool, true, false, not, List, [], ◌∷◌, ◌++◌, Option, none, some, if◌then◌else◌,
  is_empty, is_some, nat_eq,
}
use inc_someip_gateway.Map.{Map, find, insert_or_assign, erase}
use inc_someip_gateway.Keys.{get_next_id}

-- What a callback calls: the binding, `m_on_find_service_change`, and the channel.
pub data Call (M : Type 0) : Type 0 where
  adds_client : ℕ → ℕ → Call M
  removes_client : ℕ → Call M
  registers_configurations : M → Call M
  receives : ℕ → M → Call M
  find_service_change : ℕ → List ℕ → Bool → Call M
  sends_connect : Call M
  restarts : Call M

-- A `Connect` message: the identifier, the services that are looked for, and whether
-- `check_and_cast` accepts it.
pub record Connect : Type 0 where
  pub identifier : List ℕ
  pub find_service_elements : List ℕ
  pub is_valid : Bool

-- `Client_info`.
pub record ClientInfo : Type 0 where
  pub identifier : List ℕ
  pub identity : ℕ

pub record Server : Type 0 where
  pub next_client_id : ℕ
  pub listening : Bool
  pub connections : Map ℕ ℕ
  pub elements : Map ℕ (List ℕ)
  pub identifiers : Map ℕ ClientInfo

abbrev pub new_server : Server
new_server = record {
  next_client_id = 0;
  listening = false;
  connections = [];
  elements = [];
  identifiers = [];
}

-- `m_connections.emplace`, which leaves a connection that is there as it is.
unfoldable pub emplace_connection : ℕ → ℕ → Map ℕ ℕ → Map ℕ ℕ
emplace_connection client_id connection connections =
    if is_some (find client_id connections)
    then connections
    else insert_or_assign client_id connection connections

module _ {M : Type 0} where
  -- The number that the connection keeps comes last.
  unfoldable pub on_connect : ℕ → Server → Server × List (Call M) × ℕ
  unfolding get_next_id
  on_connect connection s =
      let (client_id, next) = get_next_id s.next_client_id in
      (
        record s {
          next_client_id = next;
          connections = emplace_connection client_id connection s.connections;
        },
        adds_client client_id connection ∷ [],
        client_id,
      )

  unfoldable pub on_disconnect : ℕ → Server → Server × List (Call M)
  on_disconnect client_id s =
      let s' = record s {
        connections = erase client_id s.connections;
        identifiers = erase client_id s.identifiers;
      } in
      elim (find client_id s.elements) [
        | none ↦ (s', removes_client client_id ∷ [])
        | some elements ↦ (
          record s' { elements = erase client_id s.elements },
          removes_client client_id ∷ find_service_change client_id elements false ∷ [],
        )
      ]

  -- The callback for a message; `connect` is there if it is a `Connect` message.
  unfoldable pub on_message : ℕ → ℕ → Option Connect → M → Server → Server × List (Call M)
  on_message client_id identity none message s = (s, receives client_id message ∷ [])
  on_message client_id identity (some connect) message s =
      let info : ClientInfo = record { identifier = connect.identifier; identity = identity } in
      let known = record s { identifiers = insert_or_assign client_id info s.identifiers } in
      if not connect.is_valid
      then (s, [])
      else if is_empty connect.find_service_elements
      then (known, registers_configurations message ∷ receives client_id message ∷ [])
      else (
        record known {
          elements = insert_or_assign client_id connect.find_service_elements s.elements;
        },
        registers_configurations message
            ∷ find_service_change client_id connect.find_service_elements true
            ∷ receives client_id message
            ∷ [],
      )

-- `start`, where `accepted` is what `StartListening` returns: whether it succeeded.
unfoldable pub start : Bool → Server → Server × Bool
start accepted s =
    if s.listening
    then (s, false)
    else if accepted
    then (record s { listening = true }, true)
    else (s, false)

-- The states of the channel that the client is told, with the reason of a stop.
pub data StopReason : Type 0 where
  user_requested permission shutdown other_reason : StopReason

pub data State : Type 0 where
  ready starting stopping : State
  stopped : StopReason → State

pub record Client : Type 0 where
  pub connected : Bool
  pub stopped : Bool

unfoldable pub is_final : StopReason → Bool
is_final user_requested = true
is_final permission = true
is_final shutdown = true
is_final other_reason = false

module _ {M : Type 0} where
  -- `client_id` of the only connection is 0.
  unfoldable pub on_state_change : State → Client → Client × List (Call M)
  on_state_change ready c = (c, sends_connect ∷ [])
  on_state_change (State.stopped reason) c =
      if is_final reason then (record c { stopped = true }, []) else (c, restarts ∷ [])
  on_state_change starting c = (record c { connected = false }, removes_client 0 ∷ [])
  on_state_change stopping c = (record c { connected = false }, removes_client 0 ∷ [])

  -- `handle_connect_reply_message`: `none` for the failed assertion.
  unfoldable pub handle_connect_reply_message : ℕ → Bool → Client → Option (Client × List (Call M))
  handle_connect_reply_message channel status c =
      if status then some (record c { connected = true }, adds_client 0 channel ∷ []) else none

  -- `on_receive_message` for a message that is not empty; `reply` is there for a `Connect_reply`, and
  -- holds its status if `check_and_cast` accepts it.
  unfoldable pub on_receive_message :
      ℕ → Option (Option Bool) → M → Client → Option (Client × List (Call M))
  on_receive_message channel none message c = some (c, receives 0 message ∷ [])
  on_receive_message channel (some none) message c = some (c, [])
  on_receive_message channel (some (some status)) message c =
      elim (handle_connect_reply_message channel status c) [
        | none ↦ none
        | some (c', calls) ↦ some (c', calls ++ receives 0 message ∷ [])
      ]
