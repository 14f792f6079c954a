-- ===== src/Binding/Events.antt =====
-- The handlers for events and payloads, and the callbacks that send them.
use inc_someip_gateway.Base.{
  ℕ, ◌+◌, Bool, List, [], ◌∷◌, Option, none, some, if◌then◌else◌, nat_eq, min, Result,
}
use inc_someip_gateway.Map.{Map, find, insert_or_assign}
use inc_someip_gateway.Wire.{Handle, subscribe_event, event_update, payload_consumed}
use inc_someip_gateway.Allocations.{Payload, insert_allocation}
use inc_someip_gateway.Allocations
use inc_someip_gateway.SlotManager.{Manager, allocate_slot}
use inc_someip_gateway.SlotManager
use inc_someip_gateway.SlotManager.Factory.{MemoryFactory, get_payload}
use inc_someip_gateway.MemoryManagers.{
  get_shared_memory_slot_manager, get_read_only_shared_memory_slot_manager,
}
use inc_someip_gateway.ServiceStates.{update_subscription_of}
use inc_someip_gateway.ConnectionMetadata.{
  Ids, get_by_local_handle, get_by_remote_handle, for_each_client,
}
use inc_someip_gateway.Binding.{
  Binding, Output, sends, updates_event, outputs_of, get_reply_channel,
}
use inc_someip_gateway.Binding.Services.{Step}

unfoldable pub handle_subscribe_event : ℕ → ℕ → ℕ → Bool → Binding → Binding × List Output
handle_subscribe_event client_id provided_id event_id wanted b =
    elim (get_by_local_handle client_id provided_id b.id_mapping) [
      | none ↦ (b, [])
      | some ids ↦
          let (states, told) =
            update_subscription_of ids.key
              (record { client_id = client_id; provided_id = provided_id }) event_id wanted
              b.states in
          (record b { states = states }, outputs_of told)
    ]

-- The payload lies in the sender's memory: `slot_handle` is its slot there.
unfoldable pub handle_event_update : MemoryFactory → ℕ → ℕ → ℕ → Handle → Binding → Step
handle_event_update f client_id required_id event_id handle b =
    elim (get_by_remote_handle client_id required_id b.id_mapping) [
      | none ↦ some (b, [])
      | some ids ↦ elim (find ids.key b.states) [
        | none ↦ none
        | some s ↦ elim s.enabled_connector [
          | none ↦ none
          | some connector ↦
              elim (get_read_only_shared_memory_slot_manager f ids.remote_metadata b.managers) [
                | none ↦ none
                | some (managers, reader) ↦ elim (get_payload reader handle) [
                  | none ↦ none
                  | some span ↦ some (
                    record b { managers = managers },
                    updates_event connector event_id (record {
                      slot_handle = handle.slot_index;
                      size = min handle.used_bytes reader.slot_size;
                    })
                        ∷ [],
                  )
                ]
              ]
        ]
      ]
    ]

-- `on_payload_destruction`, the callback of the payload that an update makes.
unfoldable pub on_payload_destruction : ℕ → ℕ → Handle → Binding → List Output
on_payload_destruction client_id required_id handle b =
    elim (get_reply_channel client_id b.connections) [
      | none ↦ []
      | some channel ↦ sends channel (payload_consumed required_id handle) ∷ []
    ]

unfoldable pub handle_payload_consumed : ℕ → ℕ → Handle → Binding → Binding
handle_payload_consumed client_id required_id handle b =
    elim (get_by_remote_handle client_id required_id b.id_mapping) [
      | none ↦ b
      | some ids ↦ record b {
        managers = record (b.managers) {
          allocations = Allocations.payload_consumed ids.key handle b.managers.allocations;
        };
      }
    ]

-- The loop of `send_event_update`: what is sent, and how many channels take it.
unfoldable pub send_updates :
    (ℕ → Bool) → Map ℕ ℕ → ℕ → Handle → Map ℕ Ids → Option (List Output × ℕ)
send_updates accepts connections event_id handle [] = some ([], 0)
send_updates accepts connections event_id handle ((client_id, ids) ∷ rest) =
    let later = send_updates accepts connections event_id handle rest in
    elim (get_reply_channel client_id connections) [
      | none ↦ none
      | some channel ↦ elim later [
        | none ↦ none
        | some (outputs, count) ↦ some (
          sends channel (event_update ids.remote_handle event_id handle) ∷ outputs,
          (if accepts channel then 1 else 0) + count,
        )
      ]
    ]

unfoldable pub send_event_update : (ℕ → Bool) → ℕ → ℕ → Payload → Binding → Step
unfolding send_updates
send_event_update accepts key event_id payload b =
    elim (send_updates accepts b.connections event_id
      (record { slot_index = payload.slot_handle; used_bytes = payload.size })
      (for_each_client key b.id_mapping)) [
        | none ↦ none
        | some (outputs, recipient_count) ↦
            elim (insert_allocation key payload recipient_count b.managers.allocations) [
              | none ↦ none
              | some allocations ↦ some (
                record b { managers = record (b.managers) { allocations = allocations } },
                outputs,
              )
            ]
      ]

-- The callback that allocates the payload of an event: the slot, or the error.
unfoldable pub event_payload_allocate :
    MemoryFactory → ℕ → Binding → Option (Binding × Result SlotManager.Error ℕ)
event_payload_allocate f key b = elim (get_shared_memory_slot_manager f b.keys key b.managers) [
  | none ↦ none
  | some (managers, manager) ↦
      let (manager', result) = allocate_slot manager in
      some (
        record b {
          managers = record managers {
            slot_managers = insert_or_assign key manager' managers.slot_managers;
          };
        },
        result,
      )
]

-- The callback for a change of the subscription of an event of a remote service.
unfoldable pub on_event_subscription_change : ℕ → ℕ → ℕ → Bool → Binding → List Output
on_event_subscription_change client_id provided_id event_id subscribed b =
    elim (get_reply_channel client_id b.connections) [
      | none ↦ []
      | some channel ↦ sends channel (subscribe_event provided_id event_id subscribed) ∷ []
    ]
