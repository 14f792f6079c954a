-- ===== src/Wire.antt =====
-- The data of the IPC messages, of score/gateway_ipc_binding/gateway_ipc_binding.hpp and
-- score/gateway_ipc_binding/impl/gateway_ipc_binding.cpp. A fixed string stands as the string that
-- it reads as.
pub mod Paths
pub mod Frame
mod Tests
use inc_someip_gateway.Base.{ℕ, ◌≡◌, ◌↔◌, Bool, true, false, ◌&&◌, List, ◌==◌, ==_iff, Eq, arith}
use inc_someip_gateway.Strings.{list_beq, list_beq_iff, string_eq}

pub record Service : Type 0 where
  pub service_id : List ℕ
  pub major : ℕ
  pub minor : ℕ

abbrev pub InstanceId : Type 0
InstanceId = List ℕ

-- `operator==` of `Service`.
unfoldable pub service_beq : Service → Service → Bool
service_beq lhs rhs =
    list_beq lhs.service_id rhs.service_id && (lhs.major == rhs.major) && (lhs.minor == rhs.minor)

pub service_beq_iff : (a b : Service) → (service_beq a b ≡ true) ↔ (a ≡ b)
unfolding service_beq
service_beq_iff a b = (
  λ e. ground (arith, list_beq_iff a.service_id b.service_id),
  λ e. ground (arith, list_beq_iff a.service_id b.service_id),
)

instance abbrev pub service_eq : Eq Service
service_eq = record { beq = service_beq; beq_iff = service_beq_iff }

-- `Shared_memory_handle`.
pub record Handle : Type 0 where
  pub slot_index : ℕ
  pub used_bytes : ℕ

-- `Shared_memory_metadata`.
pub record Metadata : Type 0 where
  pub path : List ℕ
  pub slot_size : ℕ
  pub slot_count : ℕ

unfoldable pub metadata_beq : Metadata → Metadata → Bool
metadata_beq lhs rhs =
    (lhs.slot_count == rhs.slot_count)
    && (lhs.slot_size == rhs.slot_size)
    && list_beq lhs.path rhs.path

-- `Service_shared_memory_config`.
pub record MemoryConfig : Type 0 where
  pub service : Service
  pub instance_id : InstanceId
  pub metadata : Metadata

unfoldable pub config_beq : MemoryConfig → MemoryConfig → Bool
config_beq lhs rhs =
    service_beq lhs.service rhs.service
    && list_beq lhs.instance_id rhs.instance_id
    && metadata_beq lhs.metadata rhs.metadata

-- The comparison of two configurations tells whether they are the same.
config_beq_iff : (a b : MemoryConfig) → (config_beq a b ≡ true) ↔ (a ≡ b)
unfolding config_beq metadata_beq
config_beq_iff a b = (
  λ e. ground (
    arith,
    service_beq_iff a.service b.service,
    list_beq_iff a.instance_id b.instance_id,
    list_beq_iff a.metadata.path b.metadata.path,
  ),
  λ e. ground (
    arith,
    service_beq_iff a.service b.service,
    list_beq_iff a.instance_id b.instance_id,
    list_beq_iff a.metadata.path b.metadata.path,
  ),
)

-- The messages that the binding sends and handles.
pub data Message : Type 0 where
  connect : List MemoryConfig → Message
  connect_reply : Bool → Message
  request_service : Service → InstanceId → Bool → Message
  offer_service : Service → InstanceId → Bool → Message
  connect_service : Service → InstanceId → ℕ → Metadata → Bool → Message
  connect_service_reply : ℕ → ℕ → Metadata → ℕ → ℕ → Message
  subscribe_event : ℕ → ℕ → Bool → Message
  event_update : ℕ → ℕ → Handle → Message
  payload_consumed : ℕ → Handle → Message
