-- ===== src/Runtime/Bridges.antt =====
-- The service bridges of score/socom/impl/runtime_impl.cpp: a bridge is asked for a service that a
-- client connector looks for. The callbacks of a bridge run with the mutex released: what the other
-- threads do to the requests in the meantime is the parameter `others`, given by the number of the
-- release. What a callback returns is the parameter `request_service`.
pub mod Rounds
pub mod Coverage
pub mod History
pub mod Interference
use inc_someip_gateway.Base.{
  ℕ, zero, suc, ◌+◌, ◌-◌, Bool, true, false, not, List, [], ◌∷◌, ◌++◌, Option, none, some,
  if◌then◌else◌, ◌==◌, ◌&&◌, ◌||◌, ltb, length, is_some, is_empty, nat_eq, keep_if,
}
use inc_someip_gateway.Map.{Map, find, insert_or_assign, erase, map_values, keys}
use inc_someip_gateway.Runtime.{Target, target_eq, target_beq, Interface, interface_eq}
use inc_someip_gateway.Runtime.Database.{is_matching_instance}

-- What an entry of `m_service_requests` leads to: the owners of the shared map, 0 when the weak
-- pointer has expired; the map from bridges to what they returned; the identities of the
-- subscribers.
pub record Request : Type 0 where
  pub owners : ℕ
  pub bridges : Map ℕ ℕ
  pub subscribers : List (Option ℕ)

abbrev pub Requests : Type 0
Requests = Map Target Request

-- An entry of `m_bridge_to_callbacks`, with the identity of its registration.
pub record Bridge : Type 0 where
  pub identity : ℕ
  pub reported : Map Interface (List ℕ)

-- `contains` of a `std::set`, and `std::find` on a vector of targets.
unfoldable pub contains : List Target → Target → Bool
contains [] t = false
contains (x ∷ xs) t = target_beq x t || contains xs t

unfoldable pub has_identity : List (Option ℕ) → ℕ → Bool
has_identity [] b = false
has_identity (none ∷ xs) b = has_identity xs b
has_identity (some a ∷ xs) b = a == b || has_identity xs b

unfoldable pub is_identity : Option ℕ → ℕ → Bool
is_identity none b = false
is_identity (some a) b = a == b

unfoldable pub is_forward_subscription : Option ℕ → ℕ → List (Option ℕ) → Bool
is_forward_subscription identity bridge subscribers =
    if length subscribers == 1
    then not (is_identity identity bridge)
    else if length subscribers == 2
    then has_identity subscribers bridge && not (is_identity identity bridge)
    else false

-- `emplace` leaves an entry that is there as it is.
unfoldable pub emplace : ℕ → ℕ → Map ℕ ℕ → Map ℕ ℕ
emplace b v m = if is_some (find b m) then m else insert_or_assign b v m

unfoldable pub emplace_all : Map ℕ ℕ → Map ℕ ℕ → Map ℕ ℕ
emplace_all [] m = m
emplace_all ((b, v) ∷ rest) m = emplace_all rest (emplace b v m)

-- `lock` of the weak pointer, a new map where that fails, and the subscriber that is added. The
-- result owns the map.
unfoldable pub share : Option ℕ → Option Request → Request
share identity none = record { owners = 1; bridges = []; subscribers = identity ∷ [] }
share identity (some r) =
    if ltb 0 r.owners
    then record r { owners = r.owners + 1; subscribers = r.subscribers ++ identity ∷ [] }
    else record { owners = 1; bridges = []; subscribers = identity ∷ [] }

unfoldable pub subscribers_of : Option Request → List (Option ℕ)
subscribers_of none = []
subscribers_of (some r) = r.subscribers

-- A change of the request that the caller owns.
unfoldable pub change_request : (Request → Request) → Target → Requests → Requests
change_request f t [] = []
change_request f t ((k, r) ∷ rest) =
    let later = change_request f t rest in
    if target_beq k t then (k, f r) ∷ rest else (k, r) ∷ later

-- The locked part of a round: what the callbacks returned is merged into the live requests.
unfoldable pub merge_results : (ℕ → Target → ℕ) → ℕ → List Target → Requests → Requests
merge_results request_service b todo [] = []
merge_results request_service b todo ((k, r) ∷ rest) =
    (
      k,
      if contains todo k && ltb 0 r.owners
          then record r { bridges = emplace b (request_service b k) r.bridges }
          else r,
    )
    ∷ merge_results request_service b todo rest

-- The requests that came in since: neither called in this round nor in an earlier one.
unfoldable pub new_requests : List Target → List Target → Requests → List Target
new_requests todo done [] = []
new_requests todo done ((k, r) ∷ rest) =
    let later = new_requests todo done rest in
    if contains todo k then later else if contains done k then later else k ∷ later

module _ (request_service : ℕ → Target → ℕ) (others : ℕ → Requests → Requests) where
  -- The loop over the copy of the bridges: the requests afterwards, and `tmp_result`.
  unfoldable pub ask_bridges :
      Option ℕ → Target → ℕ → Map ℕ Bridge → Requests → Map ℕ ℕ → Requests × Map ℕ ℕ
  ask_bridges identity t round [] requests results = (requests, results)
  ask_bridges identity t round ((b, bridge) ∷ rest) requests results =
      elim (is_forward_subscription identity bridge.identity (subscribers_of (find t requests))) [
        | true ↦
            ask_bridges identity t (suc round) rest (others round requests)
              (emplace b (request_service b t) results)
        | false ↦ ask_bridges identity t round rest requests results
      ]

  -- The requests afterwards; the result is the map of the target.
  unfoldable pub get_bridge_requests : Option ℕ → Target → Map ℕ Bridge → Requests → Requests
  get_bridge_requests identity t bridges requests =
      let shared = insert_or_assign t (share identity (find t requests)) requests in
      let asked = ask_bridges identity t 0 bridges shared [] in
      change_request (λ r. record r { bridges = emplace_all asked.1 r.bridges }) t asked.0

  -- The rounds of `register_bridge`: the requests, and `requests_done`, with an entry for each call
  -- of the callback. `none` means that the fuel ran out.
  unfoldable pub rounds :
      ℕ → ℕ → ℕ → List Target → List Target → Requests → Option (Requests × List Target)
  rounds zero round b todo done requests = none
  rounds (suc fuel) round b todo done requests =
      let others_requests = others round requests in
      let merged = merge_results request_service b todo others_requests in
      let fresh = new_requests todo (todo ++ done) others_requests in
      let rest = rounds fuel (suc round) b fresh (todo ++ done) merged in
      if is_empty fresh then some (merged, todo ++ done) else rest

  unfoldable pub register_bridge : ℕ → ℕ → Requests → Option (Requests × List Target)
  register_bridge fuel b requests = rounds fuel 0 b (keys requests) [] requests

-- The maps of the live requests forget the bridge.
unfoldable pub forget_bridge : ℕ → Request → Request
forget_bridge b r = if ltb 0 r.owners then record r { bridges = erase b r.bridges } else r

unfoldable pub cleanup_bridge : ℕ → Requests → Requests
cleanup_bridge b requests = map_values (forget_bridge b) requests

-- The entry goes if its weak pointer has expired.
unfoldable pub cleanup_request : Target → Requests → Requests
cleanup_request t requests = elim (find t requests) [
  | none ↦ requests
  | some r ↦ if r.owners == 0 then erase t requests else requests
]

-- `service_requests.reset()`.
unfoldable pub reset_owner : Target → Requests → Requests
reset_owner t requests = change_request (λ r. record r { owners = r.owners - 1 }) t requests

-- `m_bridge_to_callbacks` and `m_service_requests`.
pub record BridgeState : Type 0 where
  pub callbacks : Map ℕ Bridge
  pub requests : Requests

module _ (request_service : ℕ → Target → ℕ) (others : ℕ → Requests → Requests) where
  unfoldable pub register_service_bridge : ℕ → ℕ → ℕ → BridgeState → Option BridgeState
  register_service_bridge fuel b identity s =
      let callbacks =
        insert_or_assign b (record { identity = identity; reported = [] }) s.callbacks in
      elim (register_bridge request_service others fuel b s.requests) [
        | none ↦ none
        | some (requests, done) ↦ some (record { callbacks = callbacks; requests = requests })
      ]

  -- `get_or_create_service_requests`, for which no bridge is the subscriber.
  unfoldable pub bridge_service_requests : Target → BridgeState → BridgeState
  bridge_service_requests t s = record s {
    requests = get_bridge_requests request_service others none t s.callbacks s.requests;
  }

unfoldable pub stop_registration : ℕ → BridgeState → BridgeState
stop_registration b s = record {
  callbacks = erase b s.callbacks;
  requests = cleanup_bridge b s.requests;
}

-- The final action of the registration that `bridge_service_requests` gives out.
unfoldable pub remove_service_requests : Target → BridgeState → BridgeState
remove_service_requests t s = record s { requests = cleanup_request t (reset_owner t s.requests) }

-- The part of a bridge in `get_bridge_reported_instances`.
unfoldable pub reported_by : Interface → Option ℕ → Bridge → List ℕ
reported_by interface filter bridge = elim (find interface bridge.reported) [
  | none ↦ []
  | some instances ↦ keep_if (is_matching_instance filter) instances
]

unfoldable pub reported_instances : Interface → Option ℕ → Map ℕ Bridge → List ℕ
reported_instances interface filter [] = []
reported_instances interface filter ((b, bridge) ∷ rest) =
    reported_by interface filter bridge ++ reported_instances interface filter rest

unfoldable pub get_bridge_reported_instances :
    Interface → Option ℕ → BridgeState → Map Interface (List ℕ)
get_bridge_reported_instances interface filter s =
    (interface, reported_instances interface filter s.callbacks) ∷ []
