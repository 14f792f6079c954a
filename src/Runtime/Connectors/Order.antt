-- ===== src/Runtime/Connectors/Order.antt =====
-- A client connector and a server connector find each other, whichever comes first.
use inc_someip_gateway.Base.{
  ℕ, ◌≡◌, refl, ◌∙◌, true, false, List, [], ◌∷◌, none, some, if◌then◌else◌, leb, arith, nat_eq,
}
use inc_someip_gateway.Runtime.{
  Interface, Target, kind, kind_beq, kind_beq_iff, is_minor_version_compatible,
  is_interface_compatible,
}
use inc_someip_gateway.Runtime.Database.{
  ServiceRecord, get_record, put_record, register_client_connector, register_server_connector,
  empty_record,
}
use inc_someip_gateway.Runtime.Database.Laws.{get_record-put_record, get_record_same}
use inc_someip_gateway.Runtime.Bridges.{Requests, bridge_service_requests}
use inc_someip_gateway.Runtime.Connectors.{
  Runtime, Output, indicates, logs_incompatible, done, indicate, register_client, register_server,
}

-- What the client learns.
abbrev pub learned : Interface → Interface → ℕ → ℕ → List Output
learned client server connector endpoint =
    if leb client.minor server.minor
    then indicates connector endpoint ∷ []
    else logs_incompatible connector client server ∷ []

module _ (request_service : ℕ → Target → ℕ) (others : ℕ → Requests → Requests)
    (client server : Interface) (instance_id connector endpoint : ℕ) (s : Runtime)
    (same_id : client.id ≡ server.id) (same_major : client.major ≡ server.major) where
  same_kind : kind_beq (kind client) (kind server) ≡ true
  unfolding kind_beq
  same_kind = ground arith

  same_kind' : kind_beq (kind server) (kind client) ≡ true
  unfolding kind_beq
  same_kind' = ground arith

  indicate-learned :
      indicate
        (record { interface = client; connector = connector })
        (record { interface = server; endpoint = endpoint })
      ≡ some (learned client server connector endpoint)
  unfolding indicate is_minor_version_compatible is_interface_compatible
  indicate-learned = ground arith

  abbrev with_client : ServiceRecord
  with_client = record {
    server = none;
    client = some (record { interface = client; connector = connector });
  }

  abbrev with_server : ServiceRecord
  with_server = record {
    server = some (record { interface = server; endpoint = endpoint });
    client = none;
  }

  abbrev with_both : ServiceRecord
  with_both = record {
    server = some (record { interface = server; endpoint = endpoint });
    client = some (record { interface = client; connector = connector });
  }

  abbrev target : Target
  target = record { interface = client; instance_id = instance_id }

  abbrev client_first : Runtime
  client_first = record s {
    database = put_record client instance_id with_client s.database;
    bridges = bridge_service_requests request_service others target s.bridges;
  }

  abbrev server_first : Runtime
  server_first = record s { database = put_record server instance_id with_server s.database }

  abbrev server_then : Runtime
  server_then = record client_first {
    database = put_record server instance_id with_both client_first.database;
  }

  abbrev client_then : Runtime
  client_then = record server_first {
    database = put_record client instance_id with_both server_first.database;
  }

  module _ (free : get_record client instance_id s.database ≡ empty_record) where
    free' : get_record server instance_id s.database ≡ empty_record
    free' = get_record_same server client instance_id s.database same_kind' ∙ free

    client_starts :
        register_client request_service others client instance_id connector s
        ≡ done client_first [] true
    unfolding register_client register_client_connector
    client_starts = rw (free, register_client) refl

    server_starts : register_server server instance_id endpoint s ≡ done server_first [] true
    unfolding register_server register_server_connector
    server_starts = rw (free', register_server) refl

    server_follows :
        register_server server instance_id endpoint client_first
        ≡ done server_then (learned client server connector endpoint) true
    unfolding register_server register_server_connector
    server_follows =
        let there : get_record server instance_id client_first.database ≡ with_client =
          get_record-put_record client server instance_id instance_id with_client s.database
          ∙ ground (arith, same_kind) in
        rw (there, register_server) (rw indicate-learned refl)

    client_follows :
        register_client request_service others client instance_id connector server_first
        ≡ done client_then (learned client server connector endpoint) false
    unfolding register_client register_client_connector
    client_follows =
        let there : get_record client instance_id server_first.database ≡ with_server =
          get_record-put_record server client instance_id instance_id with_server s.database
          ∙ ground (arith, same_kind') in
        rw (there, register_client) (rw indicate-learned refl)

    same_database :
        (j : Interface) (n : ℕ)
        → get_record j n server_then.database ≡ get_record j n client_then.database
    same_database j n = ground (
      arith,
      get_record-put_record server j instance_id n with_both client_first.database,
      get_record-put_record client j instance_id n with_client s.database,
      get_record-put_record client j instance_id n with_both server_first.database,
      get_record-put_record server j instance_id n with_server s.database,
      kind_beq_iff (kind client) (kind j),
      kind_beq_iff (kind server) (kind j),
      kind_beq_iff (kind client) (kind server),
      same_kind,
    )

    -- For a client connector and a server connector of one service and instance, of the same major
    -- version, where neither is registered yet, both orders of registration succeed. The second
    -- registration tells the client connector of the endpoint of the server if the minor version of
    -- the client is at most that of the server, and logs the mismatch otherwise; the first says
    -- nothing. The database then gives the same records. Only the client that comes first asks the
    -- bridges.
    pub registration_order :
        (c : Runtime) × (c' : Runtime) × (v : Runtime) × (v' : Runtime) × (register_client
            request_service others client instance_id connector s
          ≡ done c [] true)
        × (register_server server instance_id endpoint c
            ≡ done c' (learned client server connector endpoint) true)
        × (register_server server instance_id endpoint s ≡ done v [] true)
        × (register_client request_service others client instance_id connector v
            ≡ done v' (learned client server connector endpoint) false)
        × ((j : Interface) (n : ℕ) → get_record j n c'.database ≡ get_record j n v'.database)
        × (c'.bridges
            ≡ bridge_service_requests request_service others
                (record { interface = client; instance_id = instance_id })
                s.bridges)
        × (v'.bridges ≡ s.bridges)
    registration_order = (
      client_first, server_then, server_first, client_then, client_starts, server_follows,
      server_starts, client_follows, same_database, refl, refl,
    )
