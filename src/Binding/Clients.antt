-- ===== src/Binding/Clients.antt =====
-- `add_client`, `remove_client` and `remove_client_state_locked`.
use inc_someip_gateway.Base.{ℕ, not, Option, none, some, List, ◌++◌, ◌==◌, is_empty, nat_eq}
use inc_someip_gateway.Map.{Map, erase, filter_values, map_values}
use inc_someip_gateway.ServiceStates.{remove_event_subscriptions_for_client, remove_offers}
use inc_someip_gateway.ConnectionMetadata
use inc_someip_gateway.Binding.{
  Binding, Output, emplace_client, outputs_of, destroyed, clear_pending_connects, erase_client,
}

unfoldable pub add_client : ℕ → ℕ → Binding → Option Binding
add_client client_id channel b = elim (emplace_client client_id channel b.connections) [
  | none ↦ none
  | some connections ↦ some (record b { connections = connections })
]

-- The loop over `m_service_to_interested_peers`.
unfoldable pub remove_interested : ℕ → Map ℕ (List ℕ) → Map ℕ (List ℕ)
remove_interested client_id peers =
    filter_values (λ clients. not (is_empty clients)) (map_values (erase_client client_id) peers)

unfoldable pub remove_client_state_locked : ℕ → Binding → Binding × List Output
remove_client_state_locked client_id b =
    let (unsubscribed, told) = remove_event_subscriptions_for_client client_id b.states in
    let (states, connectors) = remove_offers client_id unsubscribed in
    (
      record b {
        states = states;
        interested_peers = remove_interested client_id b.interested_peers;
        id_mapping = ConnectionMetadata.remove_client client_id b.id_mapping;
        pending_connects =
            clear_pending_connects (λ p. p.client_id == client_id) b.pending_connects;
      },
      outputs_of told ++ destroyed connectors,
    )

unfoldable pub remove_client : ℕ → Binding → Binding × List Output
unfolding remove_client_state_locked
remove_client client_id b =
    remove_client_state_locked client_id (record b { connections = erase client_id b.connections })
