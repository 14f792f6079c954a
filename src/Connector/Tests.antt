-- ===== src/Connector/Tests.antt =====
-- A server with two events and one client.
use inc_someip_gateway.Base.{ℕ, ◌≡◌, refl, true, false, List, [], ◌∷◌, some, arith}
use inc_someip_gateway.Connector.{
  Server, System, update, update_and_initial_value, Call, make_server, event_requested_update,
  client_at, update_requested_event, Action, act_all,
}
use inc_someip_gateway.Connector.Table.{
  make_server-IsWellformed, is_subscribed, is_requested, request_count,
}
use inc_someip_gateway.Connector.Reports.{
  Operation, apply, run_periods, Alternates, run_periods-Alternates, request_answered,
}
use inc_someip_gateway.Connector.Link.{IsLinked, start, connection_agrees}

abbrev fresh : Server
fresh = make_server 1 2

abbrev operations : List Operation
operations =
    Operation.subscribes 7 0 update_and_initial_value
    ∷ Operation.subscribes 7 1 update
    ∷ Operation.unsubscribes 0
    ∷ Operation.goes
    ∷ Operation.subscribes 8 1 update
    ∷ []

run_periods-Alternates_example :
    (log : List (Server × List Call)) × (run_periods (operations ∷ operations ∷ []) fresh
      ≡ some log)
    × Alternates 1 (is_subscribed 1 fresh) log
run_periods-Alternates_example =
    run_periods-Alternates (operations ∷ operations ∷ []) 1 fresh (make_server-IsWellformed 1 2)

request_answered_example :
    (request_count 1 (apply (Operation.requests 7 1) fresh).1 ≡ 1)
    × (is_requested 1 (apply (Operation.requests 7 1) fresh).0 ≡ true)
    × ((d : ℕ) → (apply (Operation.requests d 1) (apply (Operation.requests 7 1) fresh).0).1 ≡ [])
    × ((update_requested_event 1 (5 ∷ []) (apply (Operation.requests 7 1) fresh).0).1
        ≡ event_requested_update 7 1 (5 ∷ []) ∷ [])
    × (is_requested 1 (update_requested_event 1 (5 ∷ []) (apply (Operation.requests 7 1) fresh).0).0
        ≡ false)
request_answered_example =
    request_answered 7 1 (5 ∷ []) fresh (make_server-IsWellformed 1 2)
      (unfold make_server in omega arith) (unfold make_server client_at in refl)

-- The server is disabled under a subscription, and enabled again.
abbrev actions : List Action
actions =
    Action.makes_client
    ∷ Action.enables
    ∷ Action.subscribes 1 update
    ∷ Action.disables
    ∷ Action.enables
    ∷ Action.destroys_client
    ∷ []

connection_agrees_example :
    (r : System × List Call) × (act_all 7 actions (start 1 2) ≡ some r) × IsLinked r.0
connection_agrees_example = connection_agrees 7 1 2 actions
