-- ===== src/Binding/Replies.antt =====
-- Which replies to a connect message make a server connector.
use inc_someip_gateway.Base.{
  ℕ, ◌≡◌, List, [], ◌∷◌, none, some, arith, nat_eq, Option-cases, inl, inr,
}
use inc_someip_gateway.Map.{find}
use inc_someip_gateway.Map.Laws.{find-erase}
use inc_someip_gateway.Wire.{Metadata}
use inc_someip_gateway.SlotManager.Factory.{MemoryFactory}
use inc_someip_gateway.MemoryManagers.{get_shared_memory_metadata}
use inc_someip_gateway.ServiceState.{ServiceState}
use inc_someip_gateway.ConnectionMetadata.{add_mapping}
use inc_someip_gateway.Binding.{Binding, Pending, Output, makes_server_connector}
use inc_someip_gateway.Binding.Handshake.{handle_connect_service_reply}

-- A reply to a handle that is not pending is ignored.
not_pending :
    (f : MemoryFactory) (client_id required_id provided_id methods events : ℕ) (md : Metadata)
    (b : Binding)
    → find required_id b.pending_connects ≡ none
    → handle_connect_service_reply f client_id required_id provided_id md methods events b
      ≡ some (b, [])
unfolding handle_connect_service_reply
not_pending f client_id required_id provided_id methods events md b missing = ground arith

-- A reply that makes a server connector comes from the client that the pending connect of its handle
-- was sent to, and makes the connector for the key of that connect and for a service that is still
-- known. The pending connect is then gone: a further reply with the handle, whoever sends it, is
-- ignored.
pub reply_answered_once :
    (f : MemoryFactory) (client_id required_id provided_id methods events : ℕ) (md : Metadata)
    (b b' : Binding) (o : Output) (outputs : List Output)
    → handle_connect_service_reply f client_id required_id provided_id md methods events b
      ≡ some (b', o ∷ outputs)
    → ((p : Pending) × (s : ServiceState) × (find required_id b.pending_connects ≡ some p)
        × (p.client_id ≡ client_id)
        × (find p.key b.states ≡ some s)
        × (o ∷ outputs ≡ makes_server_connector p.key s.service s.instance_id methods events ∷ []))
      × ((g : MemoryFactory) (other provided methods' events' : ℕ) (md' : Metadata)
          → handle_connect_service_reply g other required_id provided md' methods' events' b'
            ≡ some (b', []))
unfolding handle_connect_service_reply
reply_answered_once f client_id required_id provided_id methods events md b b' o outputs e =
    elim (Option-cases (find required_id b.pending_connects)) [
      | inl missing ↦ absurd (ground arith)
      | inr (p, found) ↦ elim (Option-cases (find p.key b.states)) [
        | inl missing ↦ absurd (ground arith)
        | inr (s, known) ↦
            elim (Option-cases (get_shared_memory_metadata f b.keys p.key b.managers)) [
              | inl missing ↦ absurd (ground arith)
              | inr ((managers, local_metadata), given) ↦
                  elim (Option-cases (
                    add_mapping client_id
                      (record {
                        key = p.key;
                        local_handle = provided_id;
                        remote_handle = required_id;
                        local_metadata = local_metadata;
                        remote_metadata = md;
                      })
                      b.id_mapping)) [
                        | inl present ↦ absurd (ground arith)
                        | inr (after, added) ↦
                            let gone : find required_id b'.pending_connects ≡ none =
                              ground
                                (arith, find-erase required_id required_id b.pending_connects) in
                            (
                              (p, s, found, ground arith, known, ground arith),
                              λ g other provided methods' events' md'.
                                  not_pending g other required_id provided methods' events' md' b'
                                    gone,
                            )
                      ]
            ]
      ]
    ]
