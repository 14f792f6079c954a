-- ===== src/Keys.antt =====
-- `Keys` of score/gateway_ipc_binding/impl/key.hpp: a number for every pair of a service and an
-- instance that was asked for, and `Id_generator` of
-- score/gateway_ipc_binding/impl/gateway_ipc_binding_util.hpp.
pub mod Search
pub mod Numbering
mod Tests
use inc_someip_gateway.Base.{
  ℕ, ◌+◌, ◌%◌, ◌^◌, List, [], ◌∷◌, Option, none, some, if◌then◌else◌, ◌==◌, value_or,
}
use inc_someip_gateway.Map.{Map, find, insert_or_assign}
use inc_someip_gateway.Strings.{string_eq}
use inc_someip_gateway.Wire.{Service, service_eq, InstanceId}

-- `get_next_id`: the number given out, and the next one. The type of the numbers has 64 bits.
unfoldable pub get_next_id : ℕ → ℕ × ℕ
get_next_id next_id = (next_id, (next_id + 1) % 2 ^ 64)

pub record Keys : Type 0 where
  pub keys : Map Service (Map InstanceId ℕ)
  pub next_key : ℕ

abbrev pub no_keys : Keys
no_keys = record { keys = []; next_key = 0 }

-- The two lookups of `get`.
unfoldable pub known_key : Service → InstanceId → Keys → Option ℕ
known_key service instance_id k = elim (find service k.keys) [
  | none ↦ none
  | some instances ↦ find instance_id instances
]

-- `m_keys[service][instance] = m_next_key.get_next_id()`.
unfoldable pub new_key : Service → InstanceId → Keys → Keys × ℕ
unfolding get_next_id
new_key service instance_id k =
    let (key, next) = get_next_id k.next_key in
    (
      record {
        keys =
            insert_or_assign service
              (insert_or_assign instance_id key (value_or (find service k.keys) [])) k.keys;
        next_key = next;
      },
      key,
    )

unfoldable pub get : Service → InstanceId → Keys → Keys × ℕ
get service instance_id k = elim (known_key service instance_id k) [
  | some key ↦ (k, key)
  | none ↦ new_key service instance_id k
]

-- The inner loop of the search for the pair of a key.
unfoldable pub find_instance : ℕ → Map InstanceId ℕ → Option InstanceId
find_instance key [] = none
find_instance key ((i, n) ∷ rest) = if n == key then some i else find_instance key rest

-- The `get` that gives the service and the instance of a key.
unfoldable pub find_service : ℕ → Map Service (Map InstanceId ℕ) → Option (Service × InstanceId)
find_service key [] = none
find_service key ((s, instances) ∷ rest) =
    let later = find_service key rest in
    elim (find_instance key instances) [ some i ↦ some (s, i) | none ↦ later ]

unfoldable pub get_pair : ℕ → Keys → Option (Service × InstanceId)
get_pair key k = find_service key k.keys
