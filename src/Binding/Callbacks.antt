-- ===== src/Binding/Callbacks.antt =====
-- The callbacks that the runtime makes while it creates a client connector: those of the connector
-- and of the bridge, in the order in which they come.
use inc_someip_gateway.Base.{
  ℕ, ◌≡◌, Bool, List, [], ◌∷◌, some, arith, nat_eq, Option-cases, Bool-cases, inl, inr, value_or,
}
use inc_someip_gateway.Map.{find}
use inc_someip_gateway.Wire.{Service, InstanceId, Handle}
use inc_someip_gateway.Keys
use inc_someip_gateway.SlotManager.Factory.{MemoryFactory}
use inc_someip_gateway.Allocations.{Payload, insert_allocation}
use inc_someip_gateway.ServiceState.{Counts}
use inc_someip_gateway.ServiceStates.{process_request_service}
use inc_someip_gateway.ConnectionMetadata.{for_each_client}
use inc_someip_gateway.ConnectionMetadata.Consistency.{
  IsIndexed, removes_service, modify, modify-IsIndexed,
}
use inc_someip_gateway.Binding.{Binding, Output}
use inc_someip_gateway.Binding.Services.{
  Step, then_run, key_of, send_request_service_locked, send_request_service,
  maybe_send_connect_service_locked,
}
use inc_someip_gateway.Binding.Requests.{offer_to_peers, on_service_state_change}
use inc_someip_gateway.Binding.Events.{send_updates, send_event_update}
use inc_someip_gateway.Binding.Mappings.{Keeps, Leaves, maybe_send-Leaves}
use inc_someip_gateway.Binding.Unchanged.{send_request-id_mapping, then_run-Leaves}

pub data Callback : Type 0 where
  changes_state : ℕ → Bool → Counts → Callback
  requests : Service → InstanceId → Counts → Bool → Callback
  updates : ℕ → ℕ → Payload → Callback

unfoldable pub run_callback : MemoryFactory → (ℕ → Bool) → Callback → Binding → Step
run_callback f accepts (changes_state key is_available counts) b =
    on_service_state_change key is_available counts b
run_callback f accepts (requests service instance_id counts in_use) b =
    send_request_service f accepts service instance_id counts in_use b
run_callback f accepts (updates key event_id payload) b =
    send_event_update accepts key event_id payload b

unfoldable pub run_callbacks : MemoryFactory → (ℕ → Bool) → List Callback → Binding → Step
run_callbacks f accepts [] b = some (b, [])
run_callbacks f accepts (c ∷ rest) b =
    then_run (run_callback f accepts c b) (run_callbacks f accepts rest)

on_service_state_change-Keeps :
    (key : ℕ) (is_available : Bool) (counts : Counts) (b : Binding)
    → IsIndexed b.id_mapping
    → Keeps (on_service_state_change key is_available counts b)
unfolding on_service_state_change modify
on_service_state_change-Keeps key is_available counts b v b' o e =
    elim (Option-cases (Keys.get_pair key b.keys)) [
      | inl missing ↦ absurd (ground arith)
      | inr ((service, instance_id), known) ↦
          elim (Option-cases (
            offer_to_peers service instance_id is_available b.connections
              (value_or (find key b.interested_peers) []))) [
                | inl missing ↦ absurd (ground arith)
                | inr (outputs, sent) ↦ elim (Bool-cases is_available) [
                  | inl there ↦ let same : b'.id_mapping ≡ b.id_mapping = ground arith in rw same v
                  | inr gone ↦ ground (arith, modify-IsIndexed (removes_service key) b.id_mapping v)
                ]
              ]
    ]

send_event_update-Leaves :
    (accepts : ℕ → Bool) (key event_id : ℕ) (payload : Payload) (b : Binding)
    → Leaves b (send_event_update accepts key event_id payload b)
unfolding send_event_update
send_event_update-Leaves accepts key event_id payload b b' o e =
    let handle : Handle = record { slot_index = payload.slot_handle; used_bytes = payload.size } in
    elim (Option-cases
      (send_updates accepts b.connections event_id handle (for_each_client key b.id_mapping))) [
        | inl missing ↦ absurd (ground arith)
        | inr ((outputs, count), sent) ↦
            elim (Option-cases (insert_allocation key payload count b.managers.allocations)) [
              | inl missing ↦ absurd (ground arith)
              | inr (allocations, stored) ↦ ground arith
            ]
      ]

send_request_service-Keeps :
    (f : MemoryFactory) (accepts : ℕ → Bool) (s : Service) (i : InstanceId) (counts : Counts)
    (in_use : Bool) (b : Binding)
    → IsIndexed b.id_mapping
    → Keeps (send_request_service f accepts s i counts in_use b)
unfolding send_request_service modify key_of
send_request_service-Keeps f accepts s i counts in_use b v b' o e =
    let r : Binding × Bool × List Output = send_request_service_locked s i in_use b in
    let kept_by_send : IsIndexed r.0.id_mapping = rw (send_request-id_mapping s i in_use b) v in
    let key : ℕ = (Keys.get s i r.0.keys).1 in
    let known : Binding = record (r.0) { keys = (Keys.get s i r.0.keys).0 } in
    let p = process_request_service key s i counts in_use known.states in
    let stored : Binding = record known { states = p.0 } in
    elim (Bool-cases r.1) [
      | inr not_sent ↦
          let same : b'.id_mapping ≡ r.0.id_mapping = ground arith in rw same kept_by_send
      | inl sent ↦ elim (Bool-cases p.1) [
        | inr gone ↦
            ground (arith, modify-IsIndexed (removes_service key) r.0.id_mapping kept_by_send)
        | inl kept ↦
            let same =
              then_run-Leaves stored (some (stored, r.2))
                (maybe_send_connect_service_locked f accepts key) (λ c q first. ground arith)
                (λ c. maybe_send-Leaves f accepts key c) b' o (ground arith) in
            rw same kept_by_send
      ]
    ]

run_callback-Keeps :
    (f : MemoryFactory) (accepts : ℕ → Bool) (c : Callback) (b : Binding)
    → IsIndexed b.id_mapping
    → Keeps (run_callback f accepts c b)
unfolding run_callback
run_callback-Keeps f accepts (changes_state key is_available counts) b v b' o e =
    on_service_state_change-Keeps key is_available counts b v b' o e
run_callback-Keeps f accepts (requests s i counts in_use) b v b' o e =
    send_request_service-Keeps f accepts s i counts in_use b v b' o e
run_callback-Keeps f accepts (updates key event_id payload) b v b' o e =
    rw (send_event_update-Leaves accepts key event_id payload b b' o e) v

-- Any callbacks, one after the other, keep the index of the mappings.
pub run_callbacks-Keeps :
    (f : MemoryFactory) (accepts : ℕ → Bool) (cs : List Callback) (b : Binding)
    → IsIndexed b.id_mapping
    → Keeps (run_callbacks f accepts cs b)
unfolding run_callbacks then_run
run_callbacks-Keeps f accepts [] b v b' o e =
    let same : b'.id_mapping ≡ b.id_mapping = ground arith in rw same v
run_callbacks-Keeps f accepts (c ∷ rest) b v b' o e =
    elim (Option-cases (run_callback f accepts c b)) [
      | inl missing ↦ absurd (ground arith)
      | inr ((b1, o1), ran) ↦ elim (Option-cases (run_callbacks f accepts rest b1)) [
        | inl missing ↦ absurd (ground arith)
        | inr ((b2, o2), later) ↦
            let kept =
              run_callbacks-Keeps f accepts rest b1 (run_callback-Keeps f accepts c b v b1 o1 ran)
                b2 o2 later in
            let same : b'.id_mapping ≡ b2.id_mapping = ground arith in rw same kept
      ]
    ]
