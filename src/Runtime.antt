-- ===== src/Runtime.antt =====
-- The SOCom runtime of score/socom/impl/runtime_impl.cpp: the identifiers of services, of
-- score/socom/service_interface_identifier.hpp. A text of a string registry is known by a number,
-- and so is an endpoint, a connector, a bridge and a request that a bridge has given out.
pub mod Database
pub mod Bridges
pub mod Connectors
mod Tests
use inc_someip_gateway.Base.{ℕ, ◌≡◌, ◌↔◌, Bool, true, ◌&&◌, ◌==◌, leb, Eq, arith}

-- `Service_interface_identifier`, with its `Version`.
pub record Interface : Type 0 where
  pub id : ℕ
  pub major : ℕ
  pub minor : ℕ

unfoldable pub interface_beq : Interface → Interface → Bool
interface_beq lhs rhs = lhs.id == rhs.id && lhs.major == rhs.major && lhs.minor == rhs.minor

pub interface_beq_iff : (a b : Interface) → (interface_beq a b ≡ true) ↔ (a ≡ b)
unfolding interface_beq
interface_beq_iff a b = ground arith

instance abbrev pub interface_eq : Eq Interface
interface_eq = record { beq = interface_beq; beq_iff = interface_beq_iff }

-- What `Minor_version_ignoring_key_equal` compares.
pub record Kind : Type 0 where
  pub id : ℕ
  pub major : ℕ

unfoldable pub kind_beq : Kind → Kind → Bool
kind_beq a b = a.id == b.id && a.major == b.major

pub kind_beq_iff : (a b : Kind) → (kind_beq a b ≡ true) ↔ (a ≡ b)
unfolding kind_beq
kind_beq_iff a b = ground arith

instance abbrev pub kind_eq : Eq Kind
kind_eq = record { beq = kind_beq; beq_iff = kind_beq_iff }

abbrev pub kind : Interface → Kind
kind interface = record { id = interface.id; major = interface.major }

-- The key of a request, and `Service_instance_identifier`: an interface with its minor version, and
-- an instance.
pub record Target : Type 0 where
  pub interface : Interface
  pub instance_id : ℕ

unfoldable pub target_beq : Target → Target → Bool
target_beq a b = interface_beq a.interface b.interface && a.instance_id == b.instance_id

pub target_beq_iff : (a b : Target) → (target_beq a b ≡ true) ↔ (a ≡ b)
unfolding target_beq
target_beq_iff a b = ground (arith, interface_beq_iff a.interface b.interface)

instance abbrev pub target_eq : Eq Target
target_eq = record { beq = target_beq; beq_iff = target_beq_iff }

unfoldable pub is_minor_version_compatible : Interface → Interface → Bool
is_minor_version_compatible server client = leb client.minor server.minor

unfoldable pub is_interface_compatible : Interface → Interface → Bool
is_interface_compatible server client =
    server.id == client.id
    && server.major == client.major
    && is_minor_version_compatible server client
