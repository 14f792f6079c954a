-- ===== src/Binding/Cleanup.antt =====
-- What is left of a client after `remove_client`, and after it has withdrawn a request.
use inc_someip_gateway.Base.{
  ℕ, ◌≡◌, ◌≢◌, refl, false, not, List, [], ◌∷◌, none, some, ◌==◌, value_or, is_empty, keep_if,
  arith, nat_eq, Option-cases, inl, inr,
}
use inc_someip_gateway.Map.{Map, find, erase, map_values, Distinct}
use inc_someip_gateway.Map.Laws.{
  find-erase, find-map_values, find-filter_values, map_values-Distinct,
}
use inc_someip_gateway.ServiceState.{
  ServiceState, Endpoint, member, without_client, remove_event_subscriptions,
}
use inc_someip_gateway.ServiceState.Subscriptions.{
  is_subscribed, subscribers_of-remove_endpoints, member-without_client, without_client-nil,
}
use inc_someip_gateway.ServiceStates.{
  ServiceStates, drop_offer, remove_offers, drop_client_subscriptions,
  remove_event_subscriptions_for_client,
}
use inc_someip_gateway.ConnectionMetadata
use inc_someip_gateway.ConnectionMetadata.{ids_of, KeyIndices, remove_client_from_key_indices}
use inc_someip_gateway.Binding.{
  Binding, Pending, clear_pending_connects, clear_pending_connects_for_key_locked, has_client,
  erase_client,
}
use inc_someip_gateway.Binding.Clients.{
  remove_interested, remove_client_state_locked, remove_client,
}
use inc_someip_gateway.Binding.Requests.{release_request}

-- No key occurs twice in a table, nor in the subscriptions of a service.
pub record IsTabled (b : Binding) : Type 0 where
  pub pending : Distinct b.pending_connects
  pub peers : Distinct b.interested_peers
  pub indices : Distinct b.id_mapping.key_to_client_indices
  pub events :
      (key : ℕ) (s : ServiceState) → find key b.states ≡ some s → Distinct s.event_subscriptions

-- Nothing of a client is left in a state: no offer, and no subscription.
pub record IsClear (client_id : ℕ) (s : ServiceState) : Type 0 where
  pub no_offers : find client_id s.offers ≡ none
  pub no_subscriptions :
      (provided_id event_id : ℕ)
      → is_subscribed
          (record { client_id = client_id; provided_id = provided_id })
          event_id
          s.event_subscriptions
        ≡ false

-- Nothing of a client is left in a binding, its payloads aside.
pub record IsForgotten (client_id : ℕ) (b : Binding) : Type 0 where
  pub connection : find client_id b.connections ≡ none
  pub mappings : ids_of client_id b.id_mapping ≡ []
  pub index :
      (key : ℕ) → find client_id (value_or (find key b.id_mapping.key_to_client_indices) []) ≡ none
  pub pending :
      (handle : ℕ) (p : Pending) → find handle b.pending_connects ≡ some p → p.client_id ≢ client_id
  pub interest :
      (key : ℕ) → has_client client_id (value_or (find key b.interested_peers) []) ≡ false
  pub states : (key : ℕ) (s : ServiceState) → find key b.states ≡ some s → IsClear client_id s

has_client-erase_client : (c : ℕ) (xs : List ℕ) → has_client c (erase_client c xs) ≡ false
unfolding has_client erase_client keep_if
has_client-erase_client c [] = refl
has_client-erase_client c (x ∷ xs) = ground (arith, has_client-erase_client c xs)

interested_after :
    (c key : ℕ) (peers : Map ℕ (List ℕ))
    → Distinct peers
    → has_client c (value_or (find key (remove_interested c peers)) []) ≡ false
unfolding remove_interested has_client
interested_after c key peers d = ground (
  arith,
  find-filter_values (λ clients. not (is_empty clients)) key (map_values (erase_client c) peers)
      (map_values-Distinct (erase_client c) peers d),
  find-map_values (erase_client c) key peers,
  has_client-erase_client c (value_or (find key peers) []),
)

index_after :
    (c key : ℕ) (indices : KeyIndices)
    → Distinct indices
    → find c (value_or (find key (remove_client_from_key_indices c indices)) []) ≡ none
unfolding remove_client_from_key_indices find
index_after c key indices d = ground (
  arith,
  find-filter_values (λ clients. not (is_empty clients)) key (map_values (erase c) indices)
      (map_values-Distinct (erase c) indices d),
  find-map_values (erase c) key indices,
  find-erase c c (value_or (find key indices) []),
)

unsubscribed :
    (c provided_id event_id : ℕ) (s : ServiceState)
    → Distinct s.event_subscriptions
    → is_subscribed
        (record { client_id = c; provided_id = provided_id })
        event_id
        (drop_client_subscriptions c s).0.event_subscriptions
      ≡ false
unfolding is_subscribed drop_client_subscriptions remove_event_subscriptions
unsubscribed c provided_id event_id s d = ground (
  arith,
  subscribers_of-remove_endpoints (without_client c) s.client_connector s.event_subscriptions
      event_id (without_client-nil c) d,
  member-without_client c (record { client_id = c; provided_id = provided_id })
      (value_or (find event_id s.event_subscriptions) []),
)

none_subscribed : (x : Endpoint) (event_id : ℕ) → is_subscribed x event_id [] ≡ false
unfolding is_subscribed find member
none_subscribed x event_id = refl

IsClear-drop_offer :
    (c : ℕ) (s : ServiceState)
    → Distinct s.event_subscriptions
    → IsClear c (drop_offer c (drop_client_subscriptions c s).0)
unfolding drop_offer drop_client_subscriptions
IsClear-drop_offer c s d = record {
  no_offers = ground (arith, find-erase c c s.offers);
  no_subscriptions = λ provided_id event_id. ground (
    arith,
    unsubscribed c provided_id event_id s d,
    none_subscribed (record { client_id = c; provided_id = provided_id }) event_id,
  );
}

state_after :
    (c key : ℕ) (m : ServiceStates) (s : ServiceState)
    → ((k : ℕ) (t : ServiceState) → find k m ≡ some t → Distinct t.event_subscriptions)
    → find key (remove_offers c (remove_event_subscriptions_for_client c m).0).0 ≡ some s
    → IsClear c s
unfolding remove_offers remove_event_subscriptions_for_client
state_after c key m s tabled e =
    let outer =
      find-map_values (drop_offer c) key (map_values (λ t. (drop_client_subscriptions c t).0) m) in
    let inner = find-map_values (λ t. (drop_client_subscriptions c t).0) key m in
    elim (Option-cases (find key m)) [
      | inl missing ↦ absurd (ground arith)
      | inr (t, found) ↦
          let same : drop_offer c (drop_client_subscriptions c t).0 ≡ s = ground arith in
          rw (← same) (IsClear-drop_offer c t (tabled key t found))
    ]

-- After a client has left a binding that lists no key twice, the binding holds no connection of it,
-- no mapping, no place in the index of the mappings, no pending connect, no interest in a service,
-- and in no state an offer or a subscription. The payloads that were sent to it and that it has not
-- reported as consumed stay as they were, with as many pending consumers.
pub remove_client-IsForgotten :
    (client_id : ℕ) (b : Binding)
    → IsTabled b
    → IsForgotten client_id (remove_client client_id b).0
      × ((remove_client client_id b).0.managers ≡ b.managers)
unfolding remove_client remove_client_state_locked clear_pending_connects
    ConnectionMetadata.remove_client
remove_client-IsForgotten client_id b v = (
  record {
    connection = ground (arith, find-erase client_id client_id b.connections);
    mappings = ground (arith, find-erase client_id client_id b.id_mapping.id_to_key);
    index = λ key. index_after client_id key b.id_mapping.key_to_client_indices v.indices;
    pending = λ handle p e. ground (
      arith,
      find-filter_values (λ (q : Pending). not (q.client_id == client_id)) handle b.pending_connects
          v.pending,
    );
    interest = λ key. interested_after client_id key b.interested_peers v.peers;
    states = λ key s e. state_after client_id key b.states s v.events e;
  },
  refl,
)

-- A client that withdraws its request of one service loses its subscriptions of every service, also
-- of those that it still requests, in a binding that lists no key twice.
pub release_request_unsubscribes :
    (client_id key other provided_id event_id : ℕ) (b : Binding) (s : ServiceState)
    → IsTabled b
    → find other (release_request client_id key b).0.states ≡ some s
    → is_subscribed
        (record { client_id = client_id; provided_id = provided_id })
        event_id
        s.event_subscriptions
      ≡ false
unfolding release_request clear_pending_connects_for_key_locked
    remove_event_subscriptions_for_client
release_request_unsubscribes client_id key other provided_id event_id b s v e =
    let inner = find-map_values (λ t. (drop_client_subscriptions client_id t).0) other b.states in
    elim (Option-cases (find other b.states)) [
      | inl missing ↦ absurd (ground arith)
      | inr (t, found) ↦
          let same : (drop_client_subscriptions client_id t).0 ≡ s = ground arith in
          rw (← same) (unsubscribed client_id provided_id event_id t (v.events other t found))
    ]
