-- ===== src/ServiceState/Tests.antt =====
-- A service with two endpoints for event 5.
use inc_someip_gateway.Base.{
  ℕ, ◌≡◌, refl, Bool, true, false, [], ◌∷◌, none, some, if◌then◌else◌, ◌==◌, arith, nat_eq,
}
use inc_someip_gateway.Map.{Distinct, find}
use inc_someip_gateway.ServiceState.{Endpoint, Subscriptions}
use inc_someip_gateway.ServiceState.Subscriptions.{
  unsubscribes, drops_client, apply, is_subscribed, intended, apply-is_subscribed,
}
use inc_someip_gateway.ServiceState.Mirror.{
  Mirrors, replay, has_subscriber, is_silent, apply-Mirrors,
}

abbrev first : Endpoint
first = record { client_id = 7; provided_id = 1 }

abbrev second : Endpoint
second = record { client_id = 8; provided_id = 2 }

abbrev two_endpoints : Subscriptions
two_endpoints = (5, first ∷ second ∷ []) ∷ []

two_endpoints-Distinct : Distinct two_endpoints
unfolding find
two_endpoints-Distinct = (refl, tt)

abbrev only_event_five : ℕ → Bool
only_event_five j = if 5 == j then true else false

two_endpoints-Mirrors : Mirrors only_event_five two_endpoints
unfolding find
two_endpoints-Mirrors = record { distinct = two_endpoints-Distinct; told = λ j. ground arith }

apply-Mirrors_example :
    (is_silent (drops_client 7) ≡ false
      → Mirrors
          (replay (apply (drops_client 7) (some 3) two_endpoints).1 only_event_five)
          (apply (drops_client 7) (some 3) two_endpoints).0)
    × (is_silent (drops_client 7) ≡ true
        → (j : ℕ)
        → (has_subscriber (apply (drops_client 7) (some 3) two_endpoints).0 j ≡ false)
          × (replay (apply (drops_client 7) (some 3) two_endpoints).1 only_event_five j
              ≡ has_subscriber two_endpoints j))
apply-Mirrors_example =
    apply-Mirrors (drops_client 7) 3 two_endpoints only_event_five two_endpoints-Mirrors

apply-is_subscribed_example :
    is_subscribed second 5 (apply (unsubscribes first 5) none two_endpoints).0
    ≡ intended (unsubscribes first 5) (λ y i. is_subscribed y i two_endpoints) second 5
apply-is_subscribed_example =
    apply-is_subscribed (unsubscribes first 5) none two_endpoints second 5 two_endpoints-Distinct
