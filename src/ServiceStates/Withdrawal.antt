-- ===== src/ServiceStates/Withdrawal.antt =====
-- What becomes of the offers and of the server connector when a client leaves or withdraws.
use inc_someip_gateway.Base.{
  ℕ, ◌≡◌, ◌≢◌, refl, ap, ◌∙◌, true, false, [], ◌∷◌, none, some, if◌then◌else◌, is_empty, is_some,
  nat_eq, ◌==◌, arith,
}
use mathlib.Core.Option
use inc_someip_gateway.Map.{Map, find, erase}
use inc_someip_gateway.Map.Laws.{find-map_values, find-erase, find-insert_or_assign}
use inc_someip_gateway.Wire.{Service, InstanceId}
use inc_someip_gateway.ServiceState.{ServiceState, OfferState, Counts}
use inc_someip_gateway.ServiceStates.{
  ServiceStates, drop_offer, remove_offers, process_offer, get_or_create, process_request_service,
  add_server_connector, modify, has_connector,
}

nonempty_of_find : (c : ℕ) (m : Map ℕ OfferState) → is_some (find c m) ≡ true → is_empty m ≡ false
unfolding find
nonempty_of_find c [] e = cc
nonempty_of_find c (x ∷ m) e = refl

-- When a client leaves, its offers go from every state, and those of the other clients stay. The
-- server connector of a service goes, with the subscriptions, only if the client was the last to
-- offer the service.
remove_offers-effect :
    (client_id key : ℕ) (m : ServiceStates) (s : ServiceState)
    → find key m ≡ some s
    → (s' : ServiceState) × (find key (remove_offers client_id m).0 ≡ some s')
      × ((c : ℕ) → find c s'.offers ≡ (if client_id == c then none else find c s.offers))
      × ((d : ℕ)
          → d ≢ client_id
          → is_some (find d s.offers) ≡ true
          → (s'.enabled_connector ≡ s.enabled_connector)
            × (s'.event_subscriptions ≡ s.event_subscriptions))
      × (is_some (find client_id s.offers) ≡ true
          → is_empty (erase client_id s.offers) ≡ true
          → (s'.enabled_connector ≡ none) × (s'.event_subscriptions ≡ []))
unfolding remove_offers drop_offer
remove_offers-effect client_id key m s e = (
  drop_offer client_id s,
  find-map_values (drop_offer client_id) key m ∙ ap (Option.map (drop_offer client_id)) e,
  λ c. ground (arith, find-erase c client_id s.offers),
  λ d ne offered.
      ground
        (arith, find-erase d client_id s.offers, nonempty_of_find d (erase client_id s.offers)),
  λ here last. ground arith,
)

-- A client that withdraws its offer takes the server connector with it, though another client goes
-- on offering the service; one that leaves does not.
pub withdrawal_differs :
    (client_id other key connector : ℕ) (service : Service) (instance_id : InstanceId)
    (m : ServiceStates) (s : ServiceState)
    → find key m ≡ some s
    → other ≢ client_id
    → is_some (find other s.offers) ≡ true
    → s.enabled_connector ≡ some connector
    → (has_connector key (process_offer key client_id service instance_id false m).0 ≡ false)
      × (has_connector key (remove_offers client_id m).0 ≡ true)
unfolding has_connector process_offer get_or_create
withdrawal_differs client_id other key connector service instance_id m s e ne offered held =
    let (s', found, offers, kept, gone) = remove_offers-effect client_id key m s e in
    (
      ground (
        arith,
        find-insert_or_assign key key
            (record s { offers = erase client_id s.offers; enabled_connector = none }) m,
      ),
      ground (arith, found, kept other ne offered),
    )

-- A server connector that comes when the peer has lost interest is dropped: after the request is
-- withdrawn the key has no state, and `add_server_connector` makes none.
late_server_connector :
    (key k connector : ℕ) (service : Service) (instance_id : InstanceId) (counts : Counts)
    (m : ServiceStates)
    → find k (
        add_server_connector key connector
          (process_request_service key service instance_id counts false m).0)
      ≡ (if key == k then none else find k m)
unfolding add_server_connector process_request_service modify
late_server_connector key k connector service instance_id counts m =
    ground (arith, find-erase key key m, find-erase k key m)
