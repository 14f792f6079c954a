-- ===== src/Binding/Unchanged.antt =====
-- The handlers that leave the mappings of a binding as they were.
use inc_someip_gateway.Base.{
  ℕ, ◌≡◌, refl, ◌∙◌, Bool, true, false, List, [], ◌∷◌, none, some, if◌then◌else◌, arith, nat_eq,
  Option-cases, Bool-cases, inl, inr,
}
use inc_someip_gateway.Map.{find, keys}
use inc_someip_gateway.Wire.{Service, InstanceId, Handle}
use inc_someip_gateway.SlotManager.Factory.{MemoryFactory, get_payload}
use inc_someip_gateway.MemoryManagers.{get_read_only_shared_memory_slot_manager}
use inc_someip_gateway.ConnectionMetadata.{get_by_remote_handle}
use inc_someip_gateway.Binding.{Binding, Output}
use inc_someip_gateway.Binding.Services.{
  Step, then_run, key_of, send_request_service_locked, reply_to_state, reply_to_states,
  handle_connect_reply, maybe_send_connect_service_locked,
}
use inc_someip_gateway.Binding.Events.{handle_event_update}
use inc_someip_gateway.Binding.Mappings.{Leaves, maybe_send-Leaves}

pub then_run-Leaves :
    (b : Binding) (r : Step) (g : Binding → Step)
    → Leaves b r
    → ((c : Binding) → Leaves c (g c))
    → Leaves b (then_run r g)
unfolding then_run
then_run-Leaves b none g first after b' o e = absurd (cc)
then_run-Leaves b (some (c, outputs)) g first after b' o e = elim (Option-cases (g c)) [
  | inl missing ↦ absurd (ground arith)
  | inr ((d, later), ran) ↦
      let same : d ≡ b' = ground arith in rw (← same) (after c d later ran ∙ first c outputs refl)
]

pub send_request-id_mapping :
    (s : Service) (i : InstanceId) (in_use : Bool) (b : Binding)
    → (send_request_service_locked s i in_use b).0.id_mapping ≡ b.id_mapping
unfolding send_request_service_locked key_of
send_request-id_mapping s i in_use b = ground arith

reply_to_state-Leaves :
    (f : MemoryFactory) (accepts : ℕ → Bool) (key : ℕ) (b : Binding)
    → Leaves b (reply_to_state f accepts key b)
unfolding reply_to_state
reply_to_state-Leaves f accepts key b b' o e = elim (Option-cases (find key b.states)) [
  | inl missing ↦ ground arith
  | inr (s, found) ↦
      let c : Binding = (send_request_service_locked s.service s.instance_id true b).0 in
      let outputs : List Output = (send_request_service_locked s.service s.instance_id true b).2 in
      let first : Step = if s.requested then some (c, outputs) else some (b, []) in
      let same = send_request-id_mapping s.service s.instance_id true b in
      then_run-Leaves b first (maybe_send_connect_service_locked f accepts key)
        (λ d p q. elim (Bool-cases s.requested) [
          | inl yes' ↦ ground arith
          | inr not_so ↦ ground arith
        ])
        (λ d. maybe_send-Leaves f accepts key d) b' o (ground arith)
]

reply_to_states-Leaves :
    (f : MemoryFactory) (accepts : ℕ → Bool) (ks : List ℕ) (b : Binding)
    → Leaves b (reply_to_states f accepts ks b)
unfolding reply_to_states
reply_to_states-Leaves f accepts [] b b' o e = ground arith
reply_to_states-Leaves f accepts (key ∷ rest) b b' o e =
    then_run-Leaves b (reply_to_state f accepts key b) _ (reply_to_state-Leaves f accepts key b)
      (λ c. reply_to_states-Leaves f accepts rest c) b' o e

pub handle_connect_reply-Leaves :
    (f : MemoryFactory) (accepts : ℕ → Bool) (status : Bool) (b : Binding)
    → Leaves b (handle_connect_reply f accepts status b)
unfolding handle_connect_reply
handle_connect_reply-Leaves f accepts true b b' o e =
    reply_to_states-Leaves f accepts (keys b.states) b b' o e
handle_connect_reply-Leaves f accepts false b b' o e = ground arith

pub handle_event_update-Leaves :
    (f : MemoryFactory) (client_id required_id event_id : ℕ) (h : Handle) (b : Binding)
    → Leaves b (handle_event_update f client_id required_id event_id h b)
unfolding handle_event_update
handle_event_update-Leaves f client_id required_id event_id h b b' o e =
    elim (Option-cases (get_by_remote_handle client_id required_id b.id_mapping)) [
      | inl missing ↦ ground arith
      | inr (ids, mapped) ↦ elim (Option-cases (find ids.key b.states)) [
        | inl missing ↦ ground arith
        | inr (s, found) ↦ elim (Option-cases s.enabled_connector) [
          | inl missing ↦ ground arith
          | inr (connector, held) ↦
              elim (Option-cases
                (get_read_only_shared_memory_slot_manager f ids.remote_metadata b.managers)) [
                  | inl missing ↦ ground arith
                  | inr ((managers, reader), opened) ↦ elim (Option-cases (get_payload reader h)) [
                    | inl missing ↦ ground arith
                    | inr (span, given) ↦ ground arith
                  ]
                ]
        ]
      ]
    ]
