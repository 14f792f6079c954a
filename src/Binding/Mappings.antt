-- ===== src/Binding/Mappings.antt =====
-- The mappings of a binding under every message that it receives.
use inc_someip_gateway.Base.{
  ℕ, ◌≡◌, refl, Bool, true, false, List, [], ◌∷◌, some, arith, nat_eq, Option-cases, inl, inr,
}
use inc_someip_gateway.Map.{find, keys}
use inc_someip_gateway.Wire.{Service, InstanceId, Metadata}
use inc_someip_gateway.Keys
use inc_someip_gateway.SlotManager.Factory.{MemoryFactory}
use inc_someip_gateway.ServiceState.{ServiceState, send_connect_service}
use inc_someip_gateway.MemoryManagers.{get_shared_memory_metadata}
use inc_someip_gateway.ConnectionMetadata.{Ids, add_mapping}
use inc_someip_gateway.ConnectionMetadata.Consistency.{
  IsIndexed, adds, removes_mapping, removes_service, apply, apply-IsIndexed, modify,
  modify-IsIndexed,
}
use inc_someip_gateway.Binding.{Binding, Output, clear_pending_connects_for_key_locked}
use inc_someip_gateway.Binding.Services.{
  Step, key_of, maybe_send_connect_service_locked, connect_outputs, channel_accepts,
  handle_offer_service,
}
use inc_someip_gateway.Binding.Handshake.{
  disconnect_service, accept_service, handle_connect_service, handle_connect_service_reply,
}

-- The binding after a step has its mappings in order.
abbrev pub Keeps : Step → Type 0
Keeps r = (b' : Binding) (o : List Output) → r ≡ some (b', o) → IsIndexed b'.id_mapping

-- A step that leaves the mappings as they were.
abbrev pub Leaves : Binding → Step → Type 0
Leaves b r = (b' : Binding) (o : List Output) → r ≡ some (b', o) → b'.id_mapping ≡ b.id_mapping

pub maybe_send-Leaves :
    (f : MemoryFactory) (accepts : ℕ → Bool) (key : ℕ) (b : Binding)
    → Leaves b (maybe_send_connect_service_locked f accepts key b)
unfolding maybe_send_connect_service_locked
maybe_send-Leaves f accepts key b b' o e = elim (Option-cases (find key b.states)) [
  | inl missing ↦ ground arith
  | inr (s, found) ↦
      go s found (send_connect_service (channel_accepts accepts b.connections) b.next_local_id s).2
        refl
]
  where
    go :
        (s : ServiceState)
        → find key b.states ≡ some s
        → (attempts : List (ℕ × ℕ))
        → (send_connect_service (channel_accepts accepts b.connections) b.next_local_id s).2
          ≡ attempts
        → b'.id_mapping ≡ b.id_mapping
    go s found [] at = ground arith
    go s found (a ∷ rest) at =
        elim (Option-cases (get_shared_memory_metadata f b.keys key b.managers)) [
          | inl missing ↦ absurd (ground arith)
          | inr ((managers, metadata), given) ↦
              elim (Option-cases
                (connect_outputs b.connections s.service s.instance_id metadata (a ∷ rest))) [
                  | inl missing ↦ absurd (ground arith)
                  | inr (outputs, sent) ↦ ground arith
                ]
        ]

pub handle_offer_service-Keeps :
    (f : MemoryFactory) (accepts : ℕ → Bool) (client_id : ℕ) (s : Service) (i : InstanceId)
    (offered : Bool) (b : Binding)
    → IsIndexed b.id_mapping
    → Keeps (handle_offer_service f accepts client_id s i offered b)
unfolding handle_offer_service key_of clear_pending_connects_for_key_locked modify
handle_offer_service-Keeps f accepts client_id s i true b v b' o e =
    rw (maybe_send-Leaves f accepts _ _ b' o e) v
handle_offer_service-Keeps f accepts client_id s i false b v b' o e =
    let key = (Keys.get s i b.keys).1 in
    ground (arith, modify-IsIndexed (removes_service key) b.id_mapping v)

pub handle_connect_service-Keeps :
    (f : MemoryFactory) (client_id channel : ℕ) (s : Service) (i : InstanceId) (required_id : ℕ)
    (md : Metadata) (in_use : Bool) (b : Binding)
    → IsIndexed b.id_mapping
    → Keeps (handle_connect_service f client_id channel s i required_id md in_use b)
unfolding handle_connect_service disconnect_service accept_service key_of
    clear_pending_connects_for_key_locked modify apply
handle_connect_service-Keeps f client_id channel s i required_id md false b v b' o e =
    ground (arith, modify-IsIndexed (removes_mapping client_id required_id) b.id_mapping v)
handle_connect_service-Keeps f client_id channel s i required_id md true b v b' o e =
    let (keys, key) = Keys.get s i b.keys in
    elim (Option-cases (get_shared_memory_metadata f keys key b.managers)) [
      | inl missing ↦ absurd (ground arith)
      | inr ((managers, metadata), given) ↦ elim (Option-cases (find key b.states)) [
        | inl missing ↦ absurd (ground arith)
        | inr (state, found) ↦
            let ids : Ids = record {
              key = key;
              local_handle = b.next_local_id;
              remote_handle = required_id;
              local_metadata = metadata;
              remote_metadata = md;
            } in
            elim (Option-cases (add_mapping client_id ids b.id_mapping)) [
              | inl present ↦ absurd (ground arith)
              | inr (after, added) ↦
                  let same : b'.id_mapping ≡ after = ground arith in
                  rw same (apply-IsIndexed (adds client_id ids) b.id_mapping after v added)
            ]
      ]
    ]

pub handle_connect_service_reply-Keeps :
    (f : MemoryFactory) (client_id required_id provided_id methods events : ℕ) (md : Metadata)
    (b : Binding)
    → IsIndexed b.id_mapping
    → Keeps (handle_connect_service_reply f client_id required_id provided_id md methods events b)
unfolding handle_connect_service_reply apply
handle_connect_service_reply-Keeps f client_id required_id provided_id methods events md b v b' o
      e =
    elim (Option-cases (find required_id b.pending_connects)) [
      | inl missing ↦ ground arith
      | inr (p, found) ↦ elim (Option-cases (find p.key b.states)) [
        | inl missing ↦ ground arith
        | inr (s, known) ↦
            elim (Option-cases (get_shared_memory_metadata f b.keys p.key b.managers)) [
              | inl missing ↦ ground arith
              | inr ((managers, metadata), given) ↦
                  let ids : Ids = record {
                    key = p.key;
                    local_handle = provided_id;
                    remote_handle = required_id;
                    local_metadata = metadata;
                    remote_metadata = md;
                  } in
                  elim (Option-cases (add_mapping client_id ids b.id_mapping)) [
                    | inl present ↦ ground arith
                    | inr (after, added) ↦
                        let kept =
                          apply-IsIndexed (adds client_id ids) b.id_mapping after v added in
                        ground (arith, kept)
                  ]
            ]
      ]
    ]
