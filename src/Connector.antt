-- ===== src/Connector.antt =====
-- The server connector of score/socom/impl/server_connector_impl.cpp and the client connector of
-- score/socom/impl/client_connector_impl.cpp. A client connector is known by a number, a payload by
-- its bytes. The locks are not modelled: each function runs without another between its steps.
pub mod Table
pub mod Reports
pub mod Link
mod Tests
use inc_someip_gateway.Base.{
  ℕ, zero, suc, ◌+◌, Bool, true, false, not, List, [], ◌∷◌, ◌++◌, Option, none, some, if◌then◌else◌,
  leb, get_elem?, set, replicate, is_some, Result, ok, err, value_or, length,
}

-- `Event_mode`.
pub data Mode : Type 0 where
  update update_and_initial_value : Mode

-- `Error` and `Server_connector_error`, as far as the connectors return them.
pub data Error : Type 0 where
  service_not_available id_out_of_range no_client_subscribed : Error

-- `Impl` of the server. `accepting` tells whether the stop block token is there, `enabled` whether
-- the registration is; a subscriber is the client of the connection that the event points to.
pub record Server : Type 0 where
  pub num_methods : ℕ
  pub num_events : ℕ
  pub subscriber : List (Option ℕ)
  pub update_requester : List (Option ℕ)
  pub modes : List Mode
  pub client : Option ℕ
  pub accepting : Bool
  pub enabled : Bool

-- The calls of the callbacks of the application at the server, and what goes to a client.
pub data Call : Type 0 where
  subscription_change : ℕ → Bool → Call
  update_request : ℕ → Call
  method_call : ℕ → Call
  method_call_payload_allocate : ℕ → Call
  event_update : ℕ → ℕ → List ℕ → Call
  event_requested_update : ℕ → ℕ → List ℕ → Call
  event_payload_allocate : ℕ → ℕ → Call
  service_state_change : ℕ → Bool → Call

unfoldable pub make_server : ℕ → ℕ → Server
make_server num_methods num_events = record {
  num_methods = num_methods;
  num_events = num_events;
  subscriber = replicate num_events none;
  update_requester = replicate num_events none;
  modes = replicate num_events update;
  client = none;
  accepting = false;
  enabled = false;
}

-- `get_client` of an event.
unfoldable pub client_at : List (Option ℕ) → ℕ → Option ℕ
client_at events id = value_or (get_elem? events id) none

-- `none` for the failed assertion that there is no client.
unfoldable pub connect : ℕ → Server → Option (Result Error Server)
connect client s =
    if not s.accepting
    then some (err service_not_available)
    else if is_some s.client
    then none
    else some (ok (record s { client = some client }))

unfoldable pub unsubscribe_event : ℕ → Server → Server × List Call
unsubscribe_event id s = (
  record s {
    subscriber = set s.subscriber id none;
    update_requester = set s.update_requester id none;
  },
  if is_some (client_at s.subscriber id) then subscription_change id false ∷ [] else [],
)

-- The loop over the events from `id` on, as many as the first argument tells.
unfoldable pub unsubscribe_events : ℕ → ℕ → Server → Server × List Call
unsubscribe_events zero id s = (s, [])
unsubscribe_events (suc n) id s =
    let (s', calls) = unsubscribe_event id s in
    let (s'', later) = unsubscribe_events n (suc id) s' in (s'', calls ++ later)

unfoldable pub remove_client : Server → Server × List Call
remove_client s =
    let (s', calls) = unsubscribe_events s.num_events 0 s in (record s' { client = none }, calls)

unfoldable pub is_update_requester : Mode → Bool
is_update_requester update = false
is_update_requester update_and_initial_value = true

-- `receive` of a `Subscribe_event`.
unfoldable pub receive_subscribe :
    ℕ → ℕ → Mode → Server → Server × List Call × Result Error (Unit {0})
receive_subscribe client id mode s =
    let already_subscribed = is_some (client_at s.subscriber id) in
    let already_update_requester = is_some (client_at s.update_requester id) in
    let s' = record s { subscriber = set s.subscriber id (some client) } in
    if leb (length s.modes) id then (s, [], err id_out_of_range) else (
      if is_update_requester mode
          then record s' {
            update_requester = set s.update_requester id (some client);
            modes = set s.modes id update_and_initial_value;
          }
          else s',
      (if already_subscribed then [] else subscription_change id true ∷ [])
          ++ (if is_update_requester mode
              then (if already_update_requester then [] else update_request id ∷ [])
              else []),
      ok tt,
    )

unfoldable pub receive_unsubscribe : ℕ → Server → Server × List Call × Result Error (Unit {0})
receive_unsubscribe id s =
    let (s', calls) = unsubscribe_event id s in
    if leb (length s.modes) id then (s, [], err id_out_of_range) else (s', calls, ok tt)

unfoldable pub receive_request_event_update :
    ℕ → ℕ → Server → Server × List Call × Result Error (Unit {0})
receive_request_event_update client id s =
    if leb (length s.update_requester) id
    then (s, [], err id_out_of_range)
    else if is_some (client_at s.update_requester id)
    then (s, [], ok tt)
    else (
      record s { update_requester = set s.update_requester id (some client) },
      update_request id ∷ [],
      ok tt,
    )

unfoldable pub receive_call_method : ℕ → Server → List Call × Result Error (Unit {0})
receive_call_method id s =
    if leb s.num_methods id then ([], err id_out_of_range) else (method_call id ∷ [], ok tt)

unfoldable pub receive_allocate_method_call_payload :
    ℕ → Server → List Call × Result Error (Unit {0})
receive_allocate_method_call_payload id s =
    if leb s.num_methods id
    then ([], err id_out_of_range)
    else (method_call_payload_allocate id ∷ [], ok tt)

unfoldable pub send : Option ℕ → (ℕ → Call) → List Call
send none message = []
send (some client) message = message client ∷ []

unfoldable pub update_event : ℕ → List ℕ → Server → List Call × Result Error (Unit {0})
update_event id payload s =
    if leb s.num_events id
    then ([], err id_out_of_range)
    else (send (client_at s.subscriber id) (λ c. event_update c id payload), ok tt)

unfoldable pub update_requested_event :
    ℕ → List ℕ → Server → Server × List Call × Result Error (Unit {0})
update_requested_event id payload s =
    if leb s.num_events id then (s, [], err id_out_of_range) else (
      record s { update_requester = set s.update_requester id none },
      send (client_at s.update_requester id) (λ c. event_requested_update c id payload),
      ok tt,
    )

unfoldable pub allocate_event_payload : ℕ → Server → List Call × Result Error (Unit {0})
allocate_event_payload id s =
    if leb s.num_events id then ([], err id_out_of_range) else elim (client_at s.subscriber id) [
      | none ↦ ([], err no_client_subscribed)
      | some c ↦ (event_payload_allocate c id ∷ [], ok tt)
    ]

unfoldable pub get_event_mode : ℕ → Server → Result Error Mode
get_event_mode id s =
    if leb s.num_events id then err id_out_of_range else ok (value_or (get_elem? s.modes id) update)

-- `enable`; the registration is that of the runtime.
unfoldable pub enable : Server → Option Server
enable s = if s.enabled then none else some (record s { accepting = true; enabled = true })

-- The loop of `unsubscribe_event` without a client: no callback is called.
unfoldable pub clear_events : ℕ → ℕ → Server → Server
clear_events zero id s = s
clear_events (suc n) id s = clear_events n (suc id) (record s {
  subscriber = set s.subscriber id none;
  update_requester = set s.update_requester id none;
})

-- The first part of `disable`, up to the message to the client.
unfoldable pub stop : Server → Server
stop s = clear_events s.num_events 0 (record s { accepting = false; enabled = false })

-- `Impl` of a client connector: whether its stop block token is there, and whether it holds the
-- endpoint of the server.
pub record Client : Type 0 where
  pub alive : Bool
  pub server : Bool

-- One server connector, and the client connector that the database has for it.
pub record System : Type 0 where
  pub server : Server
  pub client : Client

-- When the client gives the endpoint up, the reference token goes, and with it the connection.
unfoldable pub drop_endpoint : System → System × List Call
drop_endpoint s =
    if s.client.server
    then (let (server, calls) = remove_client s.server in
        (record { server = server; client = record s.client { server = false } }, calls))
    else (s, [])

-- The server indication of the client `c`.
unfoldable pub on_server_update : ℕ → System → Option (System × List Call)
on_server_update c s = if not s.client.alive then some (s, []) else elim (connect c s.server) [
  | none ↦ none
  | some (err e) ↦ some (s, [])
  | some (ok server) ↦ some (
    record { server = server; client = record s.client { server = true } },
    service_state_change c true ∷ [],
  )
]

-- `disable`: the client is told, and gives the endpoint up before its callback runs.
unfoldable pub disable : System → System × List Call
disable s =
    let stopped = record s { server = stop s.server } in
    if not s.server.enabled then (s, []) else elim s.server.client [
      | none ↦ (stopped, [])
      | some c ↦
          let (s', calls) = drop_endpoint stopped in
          (s', calls ++ service_state_change c false ∷ [])
    ]

-- The destructor of the client connector.
unfoldable pub destroy_client : System → System × List Call
destroy_client s =
    let (s', calls) = drop_endpoint s in
    (record s' { client = record s'.client { alive = false } }, calls)

-- `send` of the client: the message runs at the server, if the client holds its endpoint.
unfoldable pub client_send :
    (Server → Server × List Call × Result Error (Unit {0}))
    → System
    → System × List Call × Result Error (Unit {0})
client_send receive s =
    if s.client.server
    then (let (server, calls, result) = receive s.server in
        (record s { server = server }, calls, result))
    else (s, [], err service_not_available)

-- What happens to a server connector and the client connector `c` of its service.
pub data Action : Type 0 where
  enables disables makes_client destroys_client : Action
  subscribes : ℕ → Mode → Action
  unsubscribes : ℕ → Action
  requests : ℕ → Action
  updates : ℕ → List ℕ → Action
  updates_requested : ℕ → List ℕ → Action

-- The calls with the state before them; the answer of a request is left out.
unfoldable pub without_result :
    System × List Call × Result Error (Unit {0}) → Option (System × List Call)
without_result (s, calls, result) = some (s, calls)

-- A disabled server is enabled, and the runtime indicates it to the client that is registered; a
-- client that is made learns of the server that is registered. `none` for a failed assertion.
unfoldable pub act : ℕ → Action → System → Option (System × List Call)
act c enables s = elim (enable s.server) [
  | none ↦ some (s, [])
  | some server ↦ on_server_update c (record s { server = server })
]
act c disables s = some (disable s)
act c makes_client s =
    let made = record s { client = record { alive = true; server = false } } in
    if s.client.alive
    then some (s, [])
    else if s.server.enabled
    then on_server_update c made
    else some (made, [])
act c destroys_client s = some (destroy_client s)
act c (subscribes id mode) s = without_result (client_send (receive_subscribe c id mode) s)
act c (unsubscribes id) s = without_result (client_send (receive_unsubscribe id) s)
act c (requests id) s = without_result (client_send (receive_request_event_update c id) s)
act c (updates id payload) s = some (s, (update_event id payload s.server).0)
act c (updates_requested id payload) s =
    let (server, calls, result) = update_requested_event id payload s.server in
    some (record s { server = server }, calls)

-- The actions in order, up to the end or to a failed assertion.
unfoldable pub act_all : ℕ → List Action → System → Option (System × List Call)
act_all c [] s = some (s, [])
act_all c (a ∷ rest) s = elim (act c a s) [
  | none ↦ none
  | some (s', calls) ↦ elim (act_all c rest s') [
    | none ↦ none
    | some (s'', later) ↦ some (s'', calls ++ later)
  ]
]
