-- ===== src/Connector/Link.antt =====
-- The two ends of a connection agree, and no assertion of a connector fails.
use inc_someip_gateway.Base.{
  ℕ, ◌≡◌, refl, sym, ap, subst, ◌∙◌, Bool, true, false, List, [], ◌∷◌, ◌++◌, none, some, is_some,
  arith, Result, Bool-cases, inl, inr, Option-cases,
}
use inc_someip_gateway.Connector
use inc_someip_gateway.Connector.{
  Server, Client, System, Mode, update, update_and_initial_value, Call, client_at,
  unsubscribe_events, clear_events, remove_client, drop_endpoint, stop, disable, destroy_client,
  connect, on_server_update, enable, make_server, act, act_all, Action, client_send, without_result,
  receive_subscribe, receive_unsubscribe, receive_request_event_update, unsubscribe_event,
  update_event, update_requested_event, service_not_available, service_state_change,
}
use inc_someip_gateway.Connector.Table.{
  client_at-set, client_at_beyond, client_at-replicate, IsWellformed, unsubscribe_events-IsKept,
  unsubscribe_events-effect, clear_events-IsKept, IsQuiet, stop-IsQuiet, stop-IsWellformed,
  make_server-IsWellformed,
}
use inc_someip_gateway.Connector.Reports
use inc_someip_gateway.Connector.Reports.{apply, apply-IsWellformed}

-- Both ends know of the connection or neither does; there is one only at an enabled server and with
-- a client that lives; without one the tables of the events are empty.
pub record IsLinked (s : System) : Type 0 where
  pub joint : s.client.server ≡ is_some s.server.client
  pub accepts : s.server.accepting ≡ s.server.enabled
  pub enabled : s.client.server ≡ true → s.server.enabled ≡ true
  pub alive : s.client.server ≡ true → s.client.alive ≡ true
  pub quiet : s.client.server ≡ false → IsQuiet s.server
  pub tables : IsWellformed s.server

remove_client-IsQuiet : (s : Server) → IsWellformed s → IsQuiet (remove_client s).0
unfolding remove_client
remove_client-IsQuiet s w e =
    let (subs, reqs, told, none_asked) = unsubscribe_events-effect s.num_events 0 e s in
    ground (arith, client_at_beyond s.subscriber e, client_at_beyond s.update_requester e)

remove_client-IsWellformed : (s : Server) → IsWellformed s → IsWellformed (remove_client s).0
remove_client-IsWellformed s w = unfold apply in apply-IsWellformed Reports.goes s w

remove_client-kept :
    (s : Server)
    → ((remove_client s).0.client ≡ none)
      × ((remove_client s).0.accepting ≡ s.accepting)
      × ((remove_client s).0.enabled ≡ s.enabled)
unfolding remove_client
remove_client-kept s =
    let k = unsubscribe_events-IsKept s.num_events 0 s in (refl, k.accepting, k.enabled)

stop-kept :
    (s : Server)
    → ((stop s).client ≡ s.client) × ((stop s).accepting ≡ false) × ((stop s).enabled ≡ false)
unfolding stop
stop-kept s =
    let s1 : Server = record s { accepting = false; enabled = false } in
    let k = clear_events-IsKept s.num_events 0 s1 in (k.client, k.accepting, k.enabled)

-- The endpoint is given up.
dropped :
    (v : Server) (alive linked : Bool)
    → linked ≡ is_some v.client
    → v.accepting ≡ v.enabled
    → IsWellformed v
    → (linked ≡ false → IsQuiet v)
    → IsLinked
        (drop_endpoint
          (record { server = v; client = record { alive = alive; server = linked } })).0
unfolding drop_endpoint
dropped v alive true joint accepts w quiet =
    let (gone, accepting, enabled) = remove_client-kept v in
    record {
      joint = rw gone refl;
      accepts = accepting ∙ accepts ∙ sym enabled;
      enabled = λ h. cc;
      alive = λ h. cc;
      quiet = λ h. remove_client-IsQuiet v w;
      tables = remove_client-IsWellformed v w;
    }
dropped v alive false joint accepts w quiet = record {
  joint = joint;
  accepts = accepts;
  enabled = λ h. cc;
  alive = λ h. cc;
  quiet = quiet;
  tables = w;
}

dropped-unlinked :
    (v : Server) (alive linked : Bool)
    → (drop_endpoint
        (record { server = v; client = record { alive = alive; server = linked } })).0.client
      ≡ record { alive = alive; server = false }
unfolding drop_endpoint
dropped-unlinked v alive true = refl
dropped-unlinked v alive false = refl

destroy_client-IsLinked : (s : System) → IsLinked s → IsLinked (destroy_client s).0
unfolding destroy_client
destroy_client-IsLinked s l =
    let d = dropped s.server s.client.alive s.client.server l.joint l.accepts l.tables l.quiet in
    let un : (drop_endpoint s).0.client.server ≡ false =
      ap (λ (x : Client). x.server) (dropped-unlinked s.server s.client.alive s.client.server) in
    record {
      joint = d.joint;
      accepts = d.accepts;
      enabled = λ h. d.enabled h;
      alive = λ h. cc;
      quiet = d.quiet;
      tables = d.tables;
    }

stopped :
    (s : System)
    → s.client.server ≡ false
    → (stop s.server).client ≡ none
    → (stop s.server).accepting ≡ (stop s.server).enabled
    → IsQuiet (stop s.server)
    → IsWellformed (stop s.server)
    → IsLinked (record s { server = stop s.server })
stopped s un free accepts q w = record {
  joint = un ∙ ap is_some (sym free);
  accepts = accepts;
  enabled = λ h. cc;
  alive = λ h. cc;
  quiet = λ h. q;
  tables = w;
}

disable-IsLinked : (s : System) → IsLinked s → IsLinked (disable s).0
unfolding disable
disable-IsLinked s l =
    let (same, closed, off) = stop-kept s.server in
    let w = stop-IsWellformed s.server l.tables in
    let q = stop-IsQuiet s.server l.tables in
    let d =
      dropped (stop s.server) s.client.alive s.client.server (l.joint ∙ ap is_some (sym same))
        (closed ∙ sym off) w (λ h. q) in
    elim (Bool-cases s.server.enabled) [
      | inr is_off ↦ subst IsLinked (ground arith) l
      | inl is_on ↦ elim (Option-cases s.server.client) [
        | inr (c, there) ↦ subst IsLinked (ground arith) d
        | inl absent ↦
            let un : s.client.server ≡ false = l.joint ∙ ap is_some absent in
            subst IsLinked {y = (disable s).0} (ground arith)
              (stopped s un (same ∙ absent) (closed ∙ sym off) q w)
      ]
    ]

-- An indication to a client that has no endpoint meets no connection at the server.
indicated :
    (c : ℕ) (v : Server) (alive : Bool)
    → v.client ≡ none
    → v.accepting ≡ true
    → v.enabled ≡ true
    → IsQuiet v
    → IsWellformed v
    → let s : System = record { server = v; client = record { alive = alive; server = false } } in
      (r : System × List Call) × (on_server_update c s ≡ some r) × IsLinked r.0
unfolding on_server_update connect
indicated c v true free takes on q w = (
  (
    record {
      server = record v { client = some c };
      client = record { alive = true; server = true };
    },
    service_state_change c true ∷ [],
  ),
  rw (takes, free) refl,
  record {
    joint = refl;
    accepts = takes ∙ sym on;
    enabled = λ h. on;
    alive = λ h. refl;
    quiet = λ h. cc;
    tables = record { subscribers = w.subscribers; requesters = w.requesters; infos = w.infos };
  },
)
indicated c v false free takes on q w = (
  (record { server = v; client = record { alive = false; server = false } }, []),
  refl,
  record {
    joint = rw free refl;
    accepts = takes ∙ sym on;
    enabled = λ h. on;
    alive = λ h. cc;
    quiet = λ h. q;
    tables = w;
  },
)

-- What leaves the ends of the connection alone, and the tables as well when there is none.
served :
    (s : System) (v : Server)
    → IsLinked s
    → v.client ≡ s.server.client
    → v.accepting ≡ s.server.accepting
    → v.enabled ≡ s.server.enabled
    → (s.client.server ≡ false → IsQuiet v)
    → IsWellformed v
    → IsLinked (record s { server = v })
served s v l client accepting enabled quiet w = record {
  joint = l.joint ∙ ap is_some (sym client);
  accepts = accepting ∙ l.accepts ∙ sym enabled;
  enabled = λ h. enabled ∙ l.enabled h;
  alive = l.alive;
  quiet = quiet;
  tables = w;
}

updates_requested-IsLinked :
    (id : ℕ) (payload : List ℕ) (s : System)
    → IsLinked s
    → IsLinked (record s { server = (update_requested_event id payload s.server).0 })
updates_requested-IsLinked id payload s l =
    served s (update_requested_event id payload s.server).0 l
      (unfold update_requested_event in ground arith)
      (unfold update_requested_event in ground arith)
      (unfold update_requested_event in ground arith)
      (λ un e.
        unfold update_requested_event in
        ground (arith, l.quiet un e, client_at-set s.server.update_requester id e none))
      (unfold apply in apply-IsWellformed (Reports.updates_requested id payload) s.server l.tables)

-- A message of the client to the server, which keeps what a server operation keeps.
client_send-IsLinked :
    (receive : Server → Server × List Call × Result Connector.Error (Unit {0})) (s : System)
    → IsLinked s
    → (receive s.server).0.client ≡ s.server.client
    → (receive s.server).0.accepting ≡ s.server.accepting
    → (receive s.server).0.enabled ≡ s.server.enabled
    → IsWellformed (receive s.server).0
    → (r : System × List Call) × (without_result (client_send receive s) ≡ some r) × IsLinked r.0
unfolding without_result client_send
client_send-IsLinked receive s l client accepting enabled w = elim (Bool-cases s.client.server) [
  | inl linked ↦ (
    (record s { server = (receive s.server).0 }, (receive s.server).1),
    ground arith,
    served s (receive s.server).0 l client accepting enabled (λ un. cc) w,
  )
  | inr unlinked ↦ ((s, []), ground arith, l)
]

-- No server is known to a client that is not linked.
unlinked_free : (s : System) → IsLinked s → s.client.server ≡ false → s.server.client ≡ none
unlinked_free s l un = ground (arith, l.joint)

enables-IsLinked :
    (c : ℕ) (s : System)
    → IsLinked s
    → (r : System × List Call) × (act c Action.enables s ≡ some r) × IsLinked r.0
unfolding act enable
enables-IsLinked c s l = elim (Bool-cases s.server.enabled) [
  | inl is_on ↦ ((s, []), rw is_on refl, l)
  | inr is_off ↦
      let un : s.client.server ≡ false = ground (arith, l.enabled) in
      let v : Server = record s.server { accepting = true; enabled = true } in
      let (r, ran, linked) =
        indicated c v s.client.alive (unlinked_free s l un) refl refl (l.quiet un) (record {
          subscribers = l.tables.subscribers;
          requesters = l.tables.requesters;
          infos = l.tables.infos;
        }) in
      (r, rw (is_off, act) (rw (sym un) at ran), linked)
]

makes_client_indicates :
    (c : ℕ) (s : System)
    → s.client.alive ≡ false
    → s.server.enabled ≡ true
    → act c Action.makes_client s
      ≡ on_server_update c (record s { client = record { alive = true; server = false } })
unfolding act
makes_client_indicates c s dead is_on = ground arith

makes_client-IsLinked :
    (c : ℕ) (s : System)
    → IsLinked s
    → (r : System × List Call) × (act c Action.makes_client s ≡ some r) × IsLinked r.0
unfolding act
makes_client-IsLinked c s l = elim (Bool-cases s.client.alive) [
  | inl lives ↦ ((s, []), rw lives refl, l)
  | inr dead ↦
      let un : s.client.server ≡ false = ground (arith, l.alive) in
      let free = unlinked_free s l un in
      elim (Bool-cases s.server.enabled) [
        | inl is_on ↦
            let (r, ran, linked) =
              indicated c s.server true free (l.accepts ∙ is_on) is_on (l.quiet un) l.tables in
            (r, makes_client_indicates c s dead is_on ∙ ran, linked)
        | inr is_off ↦ (
          (record s { client = record { alive = true; server = false } }, []),
          rw (dead, act) (rw is_off refl),
          record {
            joint = rw free refl;
            accepts = l.accepts;
            enabled = λ h. cc;
            alive = λ h. refl;
            quiet = λ h. l.quiet un;
            tables = l.tables;
          },
        )
      ]
]

act-IsLinked :
    (c : ℕ) (a : Action) (s : System)
    → IsLinked s
    → (r : System × List Call) × (act c a s ≡ some r) × IsLinked r.0
act-IsLinked c Action.enables s l = enables-IsLinked c s l
act-IsLinked c Action.disables s l = (disable s, unfold act in refl, disable-IsLinked s l)
act-IsLinked c Action.makes_client s l = makes_client-IsLinked c s l
act-IsLinked c Action.destroys_client s l =
    (destroy_client s, unfold act in refl, destroy_client-IsLinked s l)
act-IsLinked c (Action.subscribes id mode) s l =
    unfold act in
    client_send-IsLinked (receive_subscribe c id mode) s l
      (unfold receive_subscribe in ground arith) (unfold receive_subscribe in ground arith)
      (unfold receive_subscribe in ground arith)
      (unfold apply in apply-IsWellformed (Reports.subscribes c id mode) s.server l.tables)
act-IsLinked c (Action.unsubscribes id) s l =
    unfold act in
    client_send-IsLinked (receive_unsubscribe id) s l
      (unfold receive_unsubscribe unsubscribe_event in ground arith)
      (unfold receive_unsubscribe unsubscribe_event in ground arith)
      (unfold receive_unsubscribe unsubscribe_event in ground arith)
      (unfold apply in apply-IsWellformed (Reports.unsubscribes id) s.server l.tables)
act-IsLinked c (Action.requests id) s l =
    unfold act in
    client_send-IsLinked (receive_request_event_update c id) s l
      (unfold receive_request_event_update in ground arith)
      (unfold receive_request_event_update in ground arith)
      (unfold receive_request_event_update in ground arith)
      (unfold apply in apply-IsWellformed (Reports.requests c id) s.server l.tables)
act-IsLinked c (Action.updates id payload) s l =
    ((s, (update_event id payload s.server).0), unfold act in refl, l)
act-IsLinked c (Action.updates_requested id payload) s l = (
  (
    record s { server = (update_requested_event id payload s.server).0 },
    (update_requested_event id payload s.server).1,
  ),
  unfold act in refl,
  updates_requested-IsLinked id payload s l,
)

-- Before the server is enabled and a client is made.
abbrev pub start : ℕ → ℕ → System
start num_methods num_events = record {
  server = make_server num_methods num_events;
  client = record { alive = false; server = false };
}

start-IsLinked : (num_methods num_events : ℕ) → IsLinked (start num_methods num_events)
start-IsLinked num_methods num_events = record {
  joint = unfold make_server in refl;
  accepts = unfold make_server in refl;
  enabled = λ h. cc;
  alive = λ h. cc;
  quiet = λ h e.
      unfold make_server in let k = client_at-replicate num_events e in (rw k refl, rw k refl);
  tables = make_server-IsWellformed num_methods num_events;
}

act_all-step :
    (c : ℕ) (a : Action) (rest : List Action) (s : System) (r r' : System × List Call)
    → act c a s ≡ some r
    → act_all c rest r.0 ≡ some r'
    → act_all c (a ∷ rest) s ≡ some (r'.0, r.1 ++ r'.1)
unfolding act_all
act_all-step c a rest s r r' first later = rw (first, act_all) (rw later refl)

act_all-IsLinked :
    (c : ℕ) (actions : List Action) (s : System)
    → IsLinked s
    → (r : System × List Call) × (act_all c actions s ≡ some r) × IsLinked r.0
unfolding act_all
act_all-IsLinked c [] s l = ((s, []), refl, l)
act_all-IsLinked c (a ∷ rest) s l =
    let (r, ran, linked) = act-IsLinked c a s l in
    let (r', ran', linked') = act_all-IsLinked c rest r.0 linked in
    ((r'.0, r.1 ++ r'.1), act_all-step c a rest s r r' ran ran', linked')

-- In whatever order the server connector is enabled and disabled, its client connector is made and
-- destroyed, and both are used, no assertion of the connectors fails, and at the end both ends know
-- of the connection or neither does. There is one only while the server is enabled and the client
-- lives. Without one no event has a subscriber and no client waits for an update.
pub connection_agrees :
    (c num_methods num_events : ℕ) (actions : List Action)
    → (r : System × List Call) × (act_all c actions (start num_methods num_events) ≡ some r)
      × IsLinked r.0
connection_agrees c num_methods num_events actions =
    act_all-IsLinked c actions (start num_methods num_events)
      (start-IsLinked num_methods num_events)
