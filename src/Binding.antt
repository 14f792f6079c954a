-- ===== src/Binding.antt =====
-- `Gateway_ipc_binding_base` of score/gateway_ipc_binding/impl/binding_base.cpp: its state, with
-- `Connections` of connections.hpp and `Pending_connects` of pending_connects.hpp, both in
-- score/gateway_ipc_binding/impl. Every handler holds the mutex.
pub mod Clients
pub mod Cleanup
pub mod Replies
pub mod Updates
pub mod Services
pub mod Requests
pub mod Handshake
pub mod Events
pub mod Dispatch
pub mod Mappings
pub mod Unchanged
pub mod Callbacks
pub mod Messages
mod Tests
use inc_someip_gateway.Base.{
  ℕ, Bool, true, false, not, ◌&&◌, List, [], ◌∷◌, ◌++◌, Option, none, some, if◌then◌else◌, ◌==◌,
  value_or, is_some, is_empty, keep_if, nat_eq,
}
use inc_someip_gateway.Map.{Map, find, insert_or_assign, erase, filter_values, map_values}
use inc_someip_gateway.Wire.{Service, InstanceId, Message, Handle}
use inc_someip_gateway.Keys.{Keys}
use inc_someip_gateway.MemoryManagers.{Managers}
use inc_someip_gateway.ServiceState.{ConnectorCall}
use inc_someip_gateway.ServiceStates.{ServiceStates, Told}
use inc_someip_gateway.ConnectionMetadata.{ConnectionMetadata}
use inc_someip_gateway.Allocations.{Payload}

-- `Pending_connect`.
pub record Pending : Type 0 where
  pub key : ℕ
  pub client_id : ℕ

-- A reply channel is known by a number.
pub record Binding : Type 0 where
  pub keys : Keys
  pub connections : Map ℕ ℕ
  pub managers : Managers
  pub states : ServiceStates
  pub id_mapping : ConnectionMetadata
  pub local_offers : Map ℕ Bool
  pub pending_connects : Map ℕ Pending
  pub interested_peers : Map ℕ (List ℕ)
  pub next_local_id : ℕ

-- What a handler does outside the binding's own state, in order.
pub data Output : Type 0 where
  sends : ℕ → Message → Output
  tells : Option ℕ → ConnectorCall → Output
  updates_event : ℕ → ℕ → Payload → Output
  makes_server_connector : ℕ → Service → InstanceId → ℕ → ℕ → Output
  destroys_connector : ℕ → Output

-- `Connections`.
unfoldable pub get_reply_channel : ℕ → Map ℕ ℕ → Option ℕ
get_reply_channel client_id connections = find client_id connections

-- `add_client`: `none` for the failed assertion that the client is new.
unfoldable pub emplace_client : ℕ → ℕ → Map ℕ ℕ → Option (Map ℕ ℕ)
emplace_client client_id channel connections =
    if is_some (find client_id connections)
    then none
    else some (insert_or_assign client_id channel connections)

unfoldable pub send_to_all : Message → Map ℕ ℕ → List Output
send_to_all msg [] = []
send_to_all msg ((client_id, channel) ∷ rest) = sends channel msg ∷ send_to_all msg rest

unfoldable pub outputs_of : Told → List Output
outputs_of [] = []
outputs_of ((connector, call) ∷ rest) = tells connector call ∷ outputs_of rest

unfoldable pub destroyed : List ℕ → List Output
destroyed [] = []
destroyed (c ∷ rest) = destroys_connector c ∷ destroyed rest

unfoldable pub destroyed_if : Option ℕ → List Output
destroyed_if none = []
destroyed_if (some c) = destroys_connector c ∷ []

-- `Pending_connects`.
unfoldable pub clear_pending_connects : (Pending → Bool) → Map ℕ Pending → Map ℕ Pending
clear_pending_connects checker = filter_values (λ p. not (checker p))

unfoldable pub clear_pending_connects_for_key : ℕ → Map ℕ Pending → Map ℕ Pending
clear_pending_connects_for_key key = clear_pending_connects (λ p. p.key == key)

unfoldable pub emplace_pending : ℕ → Pending → Map ℕ Pending → Map ℕ Pending
emplace_pending remote_handle p pending =
    if is_some (find remote_handle pending)
    then pending
    else insert_or_assign remote_handle p pending

unfoldable pub clear_pending_connects_for_key_locked : ℕ → ℕ → Binding → Binding
clear_pending_connects_for_key_locked key client_id b = record b {
  pending_connects =
      clear_pending_connects (λ p. (p.key == key) && (p.client_id == client_id)) b.pending_connects;
}

-- A set of clients.
unfoldable pub has_client : ℕ → List ℕ → Bool
has_client c [] = false
has_client c (x ∷ xs) = if x == c then true else has_client c xs

unfoldable pub insert_client : ℕ → List ℕ → List ℕ
insert_client c xs = if has_client c xs then xs else xs ++ c ∷ []

unfoldable pub erase_client : ℕ → List ℕ → List ℕ
erase_client c = keep_if (λ x. not (x == c))
