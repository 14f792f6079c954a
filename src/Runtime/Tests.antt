-- ===== src/Runtime/Tests.antt =====
-- Two services, two bridges, and the runtime at these.
use inc_someip_gateway.Base.{
  ℕ, ◌≡◌, refl, true, false, List, [], ◌∷◌, none, some, arith, ltb, ◌&&◌, ◌||◌, ◌+◌,
}
use inc_someip_gateway.Map.{find, keys, Distinct, insert_or_assign}
use inc_someip_gateway.Map.Laws.{insert_or_assign-Distinct}
use inc_someip_gateway.Runtime.{
  Interface, Target, target_eq, target_beq, target_beq_iff, interface_beq,
}
use inc_someip_gateway.Runtime.Database.{get_record, instances_of, duplicate_service}
use inc_someip_gateway.Runtime.Bridges.{
  get_bridge_requests, cleanup_bridge, Requests, Request, BridgeState, contains, register_bridge,
  bridge_service_requests, rounds, merge_results, emplace, new_requests,
}
use inc_someip_gateway.Runtime.Bridges.Rounds.{register_bridge-terminates, IsComplete, IsWithin}
use inc_someip_gateway.Runtime.Bridges.History.{
  Action, registers, looks_for, leaves, run, run-holds, client_count, is_registered, owners_of,
  holds,
}
use inc_someip_gateway.Runtime.Connectors.{
  Runtime, done, fails, refused, register_client, register_server, make_server_connector,
}
use inc_someip_gateway.Runtime.Bridges.Interference.{registered_holds, cleanup_bridge-IsFirst}
use inc_someip_gateway.Runtime.Connectors.Order.{registration_order, learned}
use inc_someip_gateway.Runtime.Connectors.Duplicates.{minor_versions_collide}

abbrev lamps : Interface
lamps = record { id = 1; major = 1; minor = 2 }

abbrev old_lamps : Interface
old_lamps = record { id = 1; major = 1; minor = 0 }

abbrev front : Target
front = record { interface = lamps; instance_id = 4 }

abbrev rear : Target
rear = record { interface = lamps; instance_id = 5 }

abbrev request_service : ℕ → Target → ℕ
request_service b t = b + 100

abbrev requests : Requests
requests = (front, record { owners = 1; bridges = []; subscribers = none ∷ [] }) ∷ []

-- Another thread asks for the second lamp in each round.
abbrev others : ℕ → Requests → Requests
others round r =
    insert_or_assign rear (record { owners = 1; bridges = []; subscribers = none ∷ [] }) r

contains-insert_or_assign :
    (k t : Target) (v : Request) (r : Requests)
    → contains (keys (insert_or_assign k v r)) t ≡ (target_beq k t || contains (keys r) t)
unfolding contains insert_or_assign
contains-insert_or_assign k t v [] = refl
contains-insert_or_assign k t v ((j, w) ∷ r) = ground (
  arith,
  target_beq_iff j k,
  target_beq_iff j t,
  target_beq_iff k t,
  contains-insert_or_assign k t v r,
)

others-IsWithin :
    (round : ℕ) (r : Requests)
    → IsWithin (front ∷ rear ∷ []) r
    → IsWithin (front ∷ rear ∷ []) (others round r)
unfolding contains
others-IsWithin round r h t there = ground (
  arith,
  h t,
  contains-insert_or_assign rear t (record { owners = 1; bridges = []; subscribers = none ∷ [] }) r,
)

others-Distinct : (round : ℕ) (r : Requests) → Distinct r → Distinct (others round r)
others-Distinct round r d = insert_or_assign-Distinct rear _ r d

two_rounds :
    register_bridge request_service others 2 7 requests
    ≡ some (
      (front, record { owners = 1; bridges = (7, 107) ∷ []; subscribers = none ∷ [] })
          ∷ (rear, record { owners = 1; bridges = (7, 107) ∷ []; subscribers = none ∷ [] })
          ∷ [],
      rear ∷ front ∷ [],
    )
unfolding register_bridge rounds merge_results emplace new_requests contains find insert_or_assign
    target_beq interface_beq
two_rounds = refl

register_bridge-terminates_example :
    (result : Requests × List Target) × (register_bridge request_service others 3 7 requests
      ≡ some result)
    × IsComplete (keys requests) result
register_bridge-terminates_example =
    register_bridge-terminates request_service others (front ∷ rear ∷ []) others-IsWithin
      others-Distinct 7 requests (λ t h. unfold contains in ground arith)
      (unfold find in (refl, tt))

-- A bridge comes between two clients and stays; one of the clients leaves.
abbrev actions : List Action
actions = leaves front ∷ looks_for rear ∷ registers 7 0 ∷ looks_for front ∷ []

run-holds_example :
    (s : BridgeState) × (run request_service actions ≡ some s)
    × ((t : Target) → owners_of (find t s.requests) ≡ client_count t actions)
    × ((t : Target) (b : ℕ)
        → holds b (find t s.requests) ≡ (ltb 0 (client_count t actions) && is_registered b actions))
run-holds_example = run-holds request_service actions

abbrev idle : Runtime
idle = record {
  database = [];
  bridges = record { callbacks = []; requests = [] };
  service_identifiers = [];
}

abbrev no_others : ℕ → Requests → Requests
no_others round r = r

registration_order_example :
    (c : Runtime) × (c' : Runtime) × (v : Runtime) × (v' : Runtime) × (register_client
        request_service no_others old_lamps 4 11 idle
      ≡ done c [] true)
    × (register_server lamps 4 12 c ≡ done c' (learned old_lamps lamps 11 12) true)
    × (register_server lamps 4 12 idle ≡ done v [] true)
    × (register_client request_service no_others old_lamps 4 11 v
        ≡ done v' (learned old_lamps lamps 11 12) false)
    × ((j : Interface) (n : ℕ) → get_record j n c'.database ≡ get_record j n v'.database)
    × (c'.bridges
        ≡ bridge_service_requests request_service no_others
            (record { interface = old_lamps; instance_id = 4 })
            idle.bridges)
    × (v'.bridges ≡ idle.bridges)
registration_order_example =
    registration_order request_service no_others old_lamps lamps 4 11 12 idle refl refl
      (unfold get_record instances_of find in refl)

minor_versions_collide_example :
    (made : Runtime) × (both : Runtime) × (s' : Runtime) × (make_server_connector true lamps 4 idle
      ≡ done made [] true)
    × (make_server_connector true lamps 4 made ≡ refused duplicate_service)
    × (make_server_connector true old_lamps 4 made ≡ done both [] true)
    × (register_server lamps 4 12 both ≡ done s' [] true)
    × (register_server old_lamps 4 13 s' ≡ fails)
minor_versions_collide_example =
    minor_versions_collide lamps old_lamps 4 12 13 idle refl refl (λ e. absurd (omega arith))
      (unfold contains in refl) (unfold contains in refl)
      (unfold get_record instances_of find in refl)

-- The bridge 7 is unregistered by another thread while it is asked for the first lamp.
registered_holds_example :
    holds 7 (
      find front (
        get_bridge_requests request_service
          (λ round r. cleanup_bridge 7 r)
          none
          front
          ((7, record { identity = 0; reported = [] }) ∷ [])
          []))
    ≡ true
registered_holds_example =
    registered_holds request_service (λ round r. cleanup_bridge 7 r) front
      (λ round r first. cleanup_bridge-IsFirst 7 front r first)
      ((7, record { identity = 0; reported = [] }) ∷ []) [] 7 (unfold find in refl)
      (unfold find in refl)
