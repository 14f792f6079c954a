-- ===== src/ServiceStates.antt =====
-- `Service_states` of score/gateway_ipc_binding/impl/service_state.hpp: the states by key. A
-- connector that an operation takes out, for its caller to destroy, is part of the result.
pub mod Withdrawal
mod Tests
use inc_someip_gateway.Base.{
  ℕ, Bool, true, false, not, ◌||◌, List, [], ◌∷◌, ◌++◌, Option, none, some, if◌then◌else◌, value_or,
  is_empty, is_some, nat_eq,
}
use inc_someip_gateway.Map.{Map, find, insert_or_assign, erase, map_values}
use inc_someip_gateway.Wire.{Service, InstanceId}
use inc_someip_gateway.ServiceState.{
  ServiceState, Counts, OfferState, no_offer, Endpoint, ConnectorCall, update_event_subscription,
  remove_event_subscriptions, remove_event_subscription,
}

abbrev pub ServiceStates : Type 0
ServiceStates = Map ℕ ServiceState

abbrev pub new_state : Service → InstanceId → ServiceState
new_state service instance_id = record {
  service = service;
  instance_id = instance_id;
  counts = record { num_methods = 0; num_events = 0 };
  requested = false;
  offers = [];
  client_connector = none;
  client_connector_pending = false;
  enabled_connector = none;
  event_subscriptions = [];
}

-- `get_or_create`: the state of the key; a new one is stored by the caller's write.
unfoldable pub get_or_create : ℕ → Service → InstanceId → ServiceStates → ServiceState
get_or_create key service instance_id m = value_or (find key m) (new_state service instance_id)

-- A change of the state of a key, if there is one.
unfoldable pub modify : ℕ → (ServiceState → ServiceState) → ServiceStates → ServiceStates
modify key f m = elim (find key m) [ none ↦ m | some s ↦ insert_or_assign key (f s) m ]

unfoldable pub add_service : ℕ → Service → InstanceId → Counts → ServiceStates → ServiceStates
add_service key service instance_id counts m =
    insert_or_assign key
      (record (get_or_create key service instance_id m) { counts = counts; requested = true }) m

-- The states, and the connector that is to be destroyed.
unfoldable pub process_offer :
    ℕ → ℕ → Service → InstanceId → Bool → ServiceStates → ServiceStates × Option ℕ
process_offer key client_id service instance_id offered m =
    let state = get_or_create key service instance_id m in
    if offered
    then (
      insert_or_assign key
          (record state {
            offers =
                insert_or_assign client_id
                  (record (value_or (find client_id state.offers) no_offer) { offered = true })
                  state.offers;
          })
          m,
      none,
    )
    else (
      insert_or_assign key
          (record state { offers = erase client_id state.offers; enabled_connector = none }) m,
      state.enabled_connector,
    )

-- The states, whether the key has a state afterwards, and the connector that is to be destroyed.
unfoldable pub process_request_service :
    ℕ → Service → InstanceId → Counts → Bool → ServiceStates → ServiceStates × Bool × Option ℕ
process_request_service key service instance_id counts in_use m =
    let state = get_or_create key service instance_id m in
    if in_use
    then (insert_or_assign key (record state { counts = counts; requested = true }) m, true, none)
    else (erase key m, false, state.enabled_connector)

unfoldable pub add_server_connector : ℕ → ℕ → ServiceStates → ServiceStates
add_server_connector key connector =
    modify key (λ s. record s { enabled_connector = some connector })

unfoldable pub mark_client_connector_pending :
    ℕ → Service → InstanceId → ServiceStates → ServiceStates
mark_client_connector_pending key service instance_id m =
    insert_or_assign key
      (record (get_or_create key service instance_id m) { client_connector_pending = true }) m

unfoldable pub clear_client_connector_pending : ℕ → ServiceStates → ServiceStates
clear_client_connector_pending key = modify key (λ s. record s { client_connector_pending = false })

unfoldable pub add_client_connector : ℕ → ℕ → ServiceStates → ServiceStates
add_client_connector key connector =
    modify key
      (λ s. record s { client_connector = some connector; client_connector_pending = false })

unfoldable pub remove_client_connector : ℕ → ServiceStates → ServiceStates × Option ℕ
remove_client_connector key m = elim (find key m) [
  | none ↦ (m, none)
  | some s ↦ (
    insert_or_assign key (record s { client_connector = none; client_connector_pending = false }) m,
    s.client_connector,
  )
]

-- `remove_offers` on one state: what it is afterwards.
unfoldable pub drop_offer : ℕ → ServiceState → ServiceState
drop_offer client_id s =
    let left = erase client_id s.offers in
    if not (is_some (find client_id s.offers))
    then s
    else if not (is_empty left)
    then record s { offers = left }
    else record s { offers = left; event_subscriptions = []; enabled_connector = none }

-- The connector that `remove_offers` takes out of one state.
unfoldable pub dropped_connector : ℕ → ServiceState → List ℕ
dropped_connector client_id s =
    if not (is_some (find client_id s.offers))
    then []
    else if not (is_empty (erase client_id s.offers))
    then []
    else elim s.enabled_connector [ none ↦ [] | some c ↦ c ∷ [] ]

unfoldable pub collect_connectors : (ServiceState → List ℕ) → ServiceStates → List ℕ
collect_connectors f [] = []
collect_connectors f ((key, s) ∷ rest) = f s ++ collect_connectors f rest

unfoldable pub remove_offers : ℕ → ServiceStates → ServiceStates × List ℕ
remove_offers client_id m =
    (map_values (drop_offer client_id) m, collect_connectors (dropped_connector client_id) m)

unfoldable pub release_client_connectors : ServiceStates → ServiceStates × List ℕ
release_client_connectors m = (
  map_values
      (λ (s : ServiceState). record s { client_connector = none; client_connector_pending = false })
      m,
  collect_connectors (λ (s : ServiceState). elim s.client_connector [ none ↦ [] | some c ↦ c ∷ [] ])
      m,
)

unfoldable pub has_connector : ℕ → ServiceStates → Bool
has_connector key m = elim (find key m) [ none ↦ false | some s ↦ is_some s.enabled_connector ]

unfoldable pub has_client_connector : ℕ → ServiceStates → Bool
has_client_connector key m = elim (find key m) [
  | none ↦ false
  | some s ↦ s.client_connector_pending || is_some s.client_connector
]

-- The operations on subscriptions give the calls on the connectors, each with its connector.
abbrev pub Told : Type 0
Told = List (Option ℕ × ConnectorCall)

unfoldable pub tell : Option ℕ → List ConnectorCall → Told
tell connector [] = []
tell connector (c ∷ rest) = (connector, c) ∷ tell connector rest

unfoldable pub update_subscription_of :
    ℕ → Endpoint → ℕ → Bool → ServiceStates → ServiceStates × Told
update_subscription_of key endpoint event_id wanted m = elim (find key m) [
  | none ↦ (m, [])
  | some s ↦
      let (state, calls) = update_event_subscription endpoint event_id wanted s in
      (insert_or_assign key state m, tell s.client_connector calls)
]

unfoldable pub drop_client_subscriptions : ℕ → ServiceState → ServiceState × List ConnectorCall
drop_client_subscriptions client_id s =
    let (subscriptions, calls) =
      remove_event_subscriptions client_id s.client_connector s.event_subscriptions in
    (record s { event_subscriptions = subscriptions }, calls)

unfoldable pub told_of_client : ℕ → ServiceStates → Told
told_of_client client_id [] = []
told_of_client client_id ((key, s) ∷ rest) =
    tell s.client_connector (drop_client_subscriptions client_id s).1
    ++ told_of_client client_id rest

unfoldable pub remove_event_subscriptions_for_client : ℕ → ServiceStates → ServiceStates × Told
remove_event_subscriptions_for_client client_id m =
    (map_values (λ s. (drop_client_subscriptions client_id s).0) m, told_of_client client_id m)

unfoldable pub remove_event_subscriptions_for_connection :
    ℕ → ℕ → ℕ → ServiceStates → ServiceStates × Told
remove_event_subscriptions_for_connection key client_id provided_id m = elim (find key m) [
  | none ↦ (m, [])
  | some s ↦
      let (subscriptions, calls) =
        remove_event_subscription (record { client_id = client_id; provided_id = provided_id })
          s.client_connector s.event_subscriptions in
      (
        insert_or_assign key (record s { event_subscriptions = subscriptions }) m,
        tell s.client_connector calls,
      )
]

unfoldable pub clear_event_subscriptions : ℕ → ServiceStates → ServiceStates
clear_event_subscriptions key = modify key (λ s. record s { event_subscriptions = [] })
