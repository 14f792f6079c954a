-- ===== src/ServiceStates/Tests.antt =====
-- A service that the clients 7 and 8 offer, with the server connector 4.
use inc_someip_gateway.Base.{◌≡◌, refl, true, false, [], ◌∷◌, none, some, arith, nat_eq}
use inc_someip_gateway.Map.{find}
use inc_someip_gateway.Wire.{Service}
use inc_someip_gateway.ServiceState.{ServiceState, OfferState}
use inc_someip_gateway.ServiceStates.{ServiceStates, has_connector, process_offer, remove_offers}
use inc_someip_gateway.ServiceStates.Withdrawal.{withdrawal_differs}

abbrev radar : Service
radar = record { service_id = b'r' ∷ []; major = 1; minor = 0 }

abbrev offer : OfferState
offer = record { offered = true; connect_sent = true; required_id = 1 }

abbrev offered_twice : ServiceState
offered_twice = record {
  service = radar;
  instance_id = b'f' ∷ [];
  counts = record { num_methods = 0; num_events = 6 };
  requested = true;
  offers = (7, offer) ∷ (8, offer) ∷ [];
  client_connector = none;
  client_connector_pending = false;
  enabled_connector = some 4;
  event_subscriptions = [];
}

abbrev states : ServiceStates
states = (0, offered_twice) ∷ []

withdrawal_differs_example :
    (has_connector 0 (process_offer 0 7 radar (b'f' ∷ []) false states).0 ≡ false)
    × (has_connector 0 (remove_offers 7 states).0 ≡ true)
unfolding find
withdrawal_differs_example =
    withdrawal_differs 7 8 0 4 radar (b'f' ∷ []) states offered_twice refl (omega arith) refl refl
