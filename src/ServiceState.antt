-- ===== src/ServiceState.antt =====
-- `Service_state` and `Service_states` of score/gateway_ipc_binding/impl/service_state.hpp. A
-- connector is known by a number; what is called on it stands in a list of calls, in order.
pub mod Subscriptions
pub mod Mirror
pub mod Offers
mod Tests
use inc_someip_gateway.Base.{
  ℕ, ◌+◌, ◌%◌, ◌^◌, Bool, true, false, not, ◌&&◌, ◌||◌, List, [], ◌∷◌, ◌++◌, Option, none, some,
  if◌then◌else◌, ◌==◌, is_empty, keep_if, value_or, is_some, nat_eq, length,
}
use inc_someip_gateway.Map.{Map, find, insert_or_assign, erase, map_values}
use inc_someip_gateway.Wire.{Service, InstanceId}

-- `Event_subscription_endpoint`.
pub record Endpoint : Type 0 where
  pub client_id : ℕ
  pub provided_id : ℕ

unfoldable pub endpoint_beq : Endpoint → Endpoint → Bool
endpoint_beq a b = (a.client_id == b.client_id) && (a.provided_id == b.provided_id)

pub record OfferState : Type 0 where
  pub offered : Bool
  pub connect_sent : Bool
  pub required_id : ℕ

abbrev pub no_offer : OfferState
no_offer = record { offered = false; connect_sent = false; required_id = 0 }

pub record Counts : Type 0 where
  pub num_methods : ℕ
  pub num_events : ℕ

abbrev pub Subscriptions : Type 0
Subscriptions = Map ℕ (List Endpoint)

pub record ServiceState : Type 0 where
  pub service : Service
  pub instance_id : InstanceId
  pub counts : Counts
  pub requested : Bool
  pub offers : Map ℕ OfferState
  pub client_connector : Option ℕ
  pub client_connector_pending : Bool
  pub enabled_connector : Option ℕ
  pub event_subscriptions : Subscriptions

-- What is called on a client connector.
pub data ConnectorCall : Type 0 where
  subscribe_event unsubscribe_event : ℕ → ConnectorCall

-- A call on the connector, if there is one.
unfoldable pub on_connector : Option ℕ → ConnectorCall → List ConnectorCall
on_connector none call = []
on_connector (some connector) call = call ∷ []

unfoldable pub member : Endpoint → List Endpoint → Bool
member e [] = false
member e (x ∷ xs) = if endpoint_beq x e then true else member e xs

-- `subscribers.erase(endpoint)`.
unfoldable pub without : Endpoint → List Endpoint → List Endpoint
without e = keep_if (λ x. not (endpoint_beq x e))

unfoldable pub without_client : ℕ → List Endpoint → List Endpoint
without_client client_id = keep_if (λ x. not (x.client_id == client_id))

-- The loop over the events that takes endpoints away, and an event whose last endpoint goes.
unfoldable pub remove_endpoints :
    (List Endpoint → List Endpoint) → Option ℕ → Subscriptions → Subscriptions × List ConnectorCall
remove_endpoints f connector [] = ([], [])
remove_endpoints f connector ((event_id, subscribers) ∷ rest) =
    let (later, calls) = remove_endpoints f connector rest in
    if is_empty (f subscribers)
    then (later, on_connector connector (unsubscribe_event event_id) ++ calls)
    else ((event_id, f subscribers) ∷ later, calls)

unfoldable pub remove_event_subscriptions :
    ℕ → Option ℕ → Subscriptions → Subscriptions × List ConnectorCall
remove_event_subscriptions client_id connector subscriptions =
    remove_endpoints (without_client client_id) connector subscriptions

unfoldable pub remove_event_subscription :
    Endpoint → Option ℕ → Subscriptions → Subscriptions × List ConnectorCall
remove_event_subscription endpoint connector subscriptions =
    remove_endpoints (without endpoint) connector subscriptions

-- `update_event_subscription`, on the state that its key leads to.
unfoldable pub subscribe :
    Endpoint → ℕ → Option ℕ → Subscriptions → Subscriptions × List ConnectorCall
subscribe endpoint event_id connector subscriptions =
    let subscribers = value_or (find event_id subscriptions) [] in
    let inserted = not (member endpoint subscribers) in
    let after = if inserted then subscribers ++ endpoint ∷ [] else subscribers in
    (
      insert_or_assign event_id after subscriptions,
      if inserted && (length after == 1)
          then on_connector connector (subscribe_event event_id)
          else [],
    )

unfoldable pub unsubscribe :
    Endpoint → ℕ → Option ℕ → Subscriptions → Subscriptions × List ConnectorCall
unsubscribe endpoint event_id connector subscriptions = elim (find event_id subscriptions) [
  | none ↦ (subscriptions, [])
  | some subscribers ↦
      if is_empty (without endpoint subscribers)
      then (erase event_id subscriptions, on_connector connector (unsubscribe_event event_id))
      else (insert_or_assign event_id (without endpoint subscribers) subscriptions, [])
]

unfoldable pub update_event_subscription :
    Endpoint → ℕ → Bool → ServiceState → ServiceState × List ConnectorCall
update_event_subscription endpoint event_id wanted state =
    let (subscriptions, calls) =
      if wanted
      then subscribe endpoint event_id state.client_connector state.event_subscriptions
      else unsubscribe endpoint event_id state.client_connector state.event_subscriptions in
    (record state { event_subscriptions = subscriptions }, calls)

-- The loop of `send_connect_service` over the offers: the offers after it, the next handle, and the
-- clients to which a connect message was sent, with its handle. `sends` tells whether a send to a
-- client succeeds.
pub record Sent : Type 0 where
  pub offers : Map ℕ OfferState
  pub next_local_id : ℕ
  pub attempts : List (ℕ × ℕ)

-- One attempt: the handle is made when the offer has none.
unfoldable pub handle_for : ℕ → OfferState → ℕ
handle_for next_local_id offer = if offer.required_id == 0 then next_local_id else offer.required_id

unfoldable pub next_for : ℕ → OfferState → ℕ
next_for next_local_id offer =
    if offer.required_id == 0 then (next_local_id + 1) % 2 ^ 64 else next_local_id

unfoldable pub is_due : OfferState → Bool
is_due offer = offer.offered && not offer.connect_sent

unfoldable pub send_to_offers : (ℕ → Bool) → ℕ → Map ℕ OfferState → Sent
unfolding handle_for next_for is_due
send_to_offers sends next_local_id [] = record {
  offers = [];
  next_local_id = next_local_id;
  attempts = [];
}
send_to_offers sends next_local_id ((client_id, offer) ∷ rest) =
    let due = is_due offer in
    let required_id = handle_for next_local_id offer in
    let later =
      send_to_offers sends (if due then next_for next_local_id offer else next_local_id) rest in
    if due
    then record {
      offers =
          (client_id, record offer { connect_sent = sends client_id; required_id = required_id })
          ∷ later.offers;
      next_local_id = later.next_local_id;
      attempts = (client_id, required_id) ∷ later.attempts;
    }
    else record later { offers = (client_id, offer) ∷ later.offers }

unfoldable pub send_connect_service :
    (ℕ → Bool) → ℕ → ServiceState → ServiceState × ℕ × List (ℕ × ℕ)
send_connect_service sends next_local_id state =
    let sent = send_to_offers sends next_local_id state.offers in
    if state.requested
    then (record state { offers = sent.offers }, sent.next_local_id, sent.attempts)
    else (state, next_local_id, [])
