-- ===== src/Runtime/Connectors.antt =====
-- `make_client_connector`, `make_server_connector` and the two `register_connector` of
-- score/socom/impl/runtime_impl.cpp, with the final actions of what they give out.
pub mod Order
pub mod Duplicates
use inc_someip_gateway.Base.{
  ℕ, Bool, true, false, not, List, [], ◌∷◌, ◌++◌, Option, none, some, if◌then◌else◌, Result, ok,
  err, is_some, keep_if, ◌||◌,
}
use inc_someip_gateway.Runtime.{
  Interface, Target, target_beq, is_minor_version_compatible, is_interface_compatible,
}
use inc_someip_gateway.Runtime.Database.{
  ConstructionError, duplicate_client, duplicate_service, callback_missing, Database, Client,
  Server, get_record, put_record, register_client_connector, register_server_connector,
  reset_client, reset_server,
}
use inc_someip_gateway.Runtime.Bridges.{
  BridgeState, Requests, bridge_service_requests, remove_service_requests, contains,
}

pub record Runtime : Type 0 where
  pub database : Database
  pub bridges : BridgeState
  pub service_identifiers : List Target

-- The server indication of a client connector is called with an endpoint, or the mismatch of the
-- minor versions is logged.
pub data Output : Type 0 where
  indicates : ℕ → ℕ → Output
  logs_incompatible : ℕ → Interface → Interface → Output

-- What a call gives: `fails` for an assertion that does not hold.
pub data Outcome (A : Type 0) : Type 0 where
  done : Runtime → List Output → A → Outcome A
  refused : ConstructionError → Outcome A
  fails : Outcome A

-- The common part of the two functions: the client is told of the server if the minor versions fit.
unfoldable pub indicate : Client → Server → Option (List Output)
indicate client server =
    if is_minor_version_compatible server.interface client.interface
    then (if is_interface_compatible server.interface client.interface
        then some (indicates client.connector server.endpoint ∷ [])
        else none)
    else some (logs_incompatible client.connector client.interface server.interface ∷ [])

module _ (request_service : ℕ → Target → ℕ) (others : ℕ → Requests → Requests) where
  -- Whether the registration holds requests of bridges.
  unfoldable pub register_client : Interface → ℕ → ℕ → Runtime → Outcome Bool
  register_client interface instance_id on_server_update s =
      elim (register_client_connector interface on_server_update
        (get_record interface instance_id s.database)) [
          | err e ↦ refused e
          | ok (r, current) ↦
              let database = put_record interface instance_id r s.database in
              let target : Target = record { interface = interface; instance_id = instance_id } in
              elim current [
                | some server ↦
                    elim (indicate (record { interface = interface; connector = on_server_update })
                      server) [
                        | none ↦ fails
                        | some outputs ↦ done (record s { database = database }) outputs false
                      ]
                | none ↦
                    done
                      (record s {
                        database = database;
                        bridges = bridge_service_requests request_service others target s.bridges;
                      })
                      [] true
              ]
        ]

  -- A client connector whose callbacks are all set, or not; it is known by a number.
  unfoldable pub make_client_connector : Bool → Interface → ℕ → ℕ → Runtime → Outcome Bool
  make_client_connector is_valid interface instance_id connector s =
      if not is_valid
      then refused callback_missing
      else register_client interface instance_id connector s

unfoldable pub register_server : Interface → ℕ → ℕ → Runtime → Outcome Bool
register_server interface instance_id endpoint s =
    elim (register_server_connector interface endpoint
      (get_record interface instance_id s.database)) [
        | none ↦ fails
        | some (r, current) ↦
            let s' = record s { database = put_record interface instance_id r s.database } in
            elim current [
              | none ↦ done s' [] true
              | some client ↦
                  elim (indicate client (record { interface = interface; endpoint = endpoint })) [
                    | none ↦ fails
                    | some outputs ↦ done s' outputs true
                  ]
            ]
      ]

-- A disabled server connector takes the identifier.
unfoldable pub make_server_connector : Bool → Interface → ℕ → Runtime → Outcome Bool
make_server_connector is_valid interface instance_id s =
    let identifier : Target = record { interface = interface; instance_id = instance_id } in
    if not is_valid
    then refused callback_missing
    else if contains s.service_identifiers identifier
    then refused duplicate_service
    else done (record s { service_identifiers = identifier ∷ s.service_identifiers }) [] true

-- The final action of a server connector.
unfoldable pub erase_identifier : Target → Runtime → Runtime
erase_identifier t s = record s {
  service_identifiers = keep_if (λ u. not (target_beq u t)) s.service_identifiers;
}

-- The registration of a client goes: first the record, then the requests of the bridges.
unfoldable pub withdraw_client : Interface → ℕ → Bool → Runtime → Runtime
withdraw_client interface instance_id bridged s =
    let target : Target = record { interface = interface; instance_id = instance_id } in
    record s {
      database =
          put_record interface instance_id
            (reset_client (get_record interface instance_id s.database)) s.database;
      bridges = if bridged then remove_service_requests target s.bridges else s.bridges;
    }

unfoldable pub withdraw_server : Interface → ℕ → Runtime → Runtime
withdraw_server interface instance_id s = record s {
  database =
      put_record interface instance_id (reset_server (get_record interface instance_id s.database))
        s.database;
}
