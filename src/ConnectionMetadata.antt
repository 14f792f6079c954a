-- ===== src/ConnectionMetadata.antt =====
-- `Connection_metadata` of score/gateway_ipc_binding/impl/connection_metadata.hpp: the established
-- connections of each client, and an index from keys to their places.
pub mod Indices
pub mod Wellformed
pub mod Consistency
pub mod Visits
pub mod Lookups
mod Tests
use inc_someip_gateway.Base.{
  ℕ, zero, suc, ◌+◌, ◌-◌, Bool, true, false, not, ◌||◌, List, [], ◌∷◌, ◌++◌, Option, none, some,
  if◌then◌else◌, ◌==◌, length, get_elem?, is_empty, keep_if, value_or, nat_eq, map,
}
use inc_someip_gateway.Map.{Map, find, insert_or_assign, erase, map_values, filter_values, keys}
use inc_someip_gateway.Wire.{Metadata}

pub record Ids : Type 0 where
  pub key : ℕ
  pub local_handle : ℕ
  pub remote_handle : ℕ
  pub local_metadata : Metadata
  pub remote_metadata : Metadata

abbrev pub KeyIndices : Type 0
KeyIndices = Map ℕ (Map ℕ ℕ)

pub record ConnectionMetadata : Type 0 where
  pub id_to_key : Map ℕ (List Ids)
  pub key_to_client_indices : KeyIndices

abbrev pub no_connections : ConnectionMetadata
no_connections = record { id_to_key = []; key_to_client_indices = [] }

abbrev pub ids_of : ℕ → ConnectionMetadata → List Ids
ids_of client_id m = value_or (find client_id m.id_to_key) []

-- `m_key_to_client_indices[key][client_id] = index`.
unfoldable pub set_index : ℕ → ℕ → ℕ → KeyIndices → KeyIndices
set_index key client_id index indices =
    insert_or_assign key (insert_or_assign client_id index (value_or (find key indices) [])) indices

unfoldable pub remove_client_from_key_indices : ℕ → KeyIndices → KeyIndices
remove_client_from_key_indices client_id indices =
    filter_values (λ clients. not (is_empty clients)) (map_values (erase client_id) indices)

-- The loop of `rebuild_client_key_indices`, from place `i` on.
unfoldable pub index_ids : ℕ → ℕ → List Ids → KeyIndices → KeyIndices
index_ids client_id i [] indices = indices
index_ids client_id i (ids ∷ rest) indices =
    index_ids client_id (i + 1) rest (set_index ids.key client_id i indices)

unfoldable pub rebuild_client_key_indices : ℕ → ConnectionMetadata → ConnectionMetadata
rebuild_client_key_indices client_id m =
    let removed = remove_client_from_key_indices client_id m.key_to_client_indices in
    record m { key_to_client_indices = index_ids client_id 0 (ids_of client_id m) removed }

-- Tests whether a mapping with the local handle or the key is there.
unfoldable pub find_conflict : Ids → List Ids → Bool
find_conflict ids [] = false
find_conflict ids (x ∷ rest) =
    ((x.local_handle == ids.local_handle) || (x.key == ids.key)) || find_conflict ids rest

unfoldable pub is_mapping_present : ℕ → Ids → ConnectionMetadata → Bool
is_mapping_present client_id ids m = find_conflict ids (ids_of client_id m)

-- `add_mapping` behind its assertion.
unfoldable pub append_mapping : ℕ → Ids → ConnectionMetadata → ConnectionMetadata
append_mapping client_id ids m =
    let ids_vec = ids_of client_id m ++ ids ∷ [] in
    record {
      id_to_key = insert_or_assign client_id ids_vec m.id_to_key;
      key_to_client_indices =
          set_index ids.key client_id (length ids_vec - 1) m.key_to_client_indices;
    }

-- `none` for the failed assertion that no such mapping is present.
unfoldable pub add_mapping : ℕ → Ids → ConnectionMetadata → Option ConnectionMetadata
unfolding is_mapping_present
add_mapping client_id ids m =
    if is_mapping_present client_id ids m then none else some (append_mapping client_id ids m)

unfoldable pub first_with : (Ids → Bool) → List Ids → Option Ids
first_with p [] = none
first_with p (ids ∷ rest) = if p ids then some ids else first_with p rest

unfoldable pub get_by_remote_handle : ℕ → ℕ → ConnectionMetadata → Option Ids
get_by_remote_handle client_id remote_handle m =
    first_with (λ ids. ids.remote_handle == remote_handle) (ids_of client_id m)

unfoldable pub get_by_local_handle : ℕ → ℕ → ConnectionMetadata → Option Ids
get_by_local_handle client_id local_handle m =
    first_with (λ ids. ids.local_handle == local_handle) (ids_of client_id m)

unfoldable pub remove_client : ℕ → ConnectionMetadata → ConnectionMetadata
remove_client client_id m = record {
  id_to_key = erase client_id m.id_to_key;
  key_to_client_indices = remove_client_from_key_indices client_id m.key_to_client_indices;
}

-- What the vector of a client is after `remove_if`: an empty one is erased with its indices, and for
-- any other the indices are made anew.
unfoldable pub put_ids : ℕ → List Ids → ConnectionMetadata → ConnectionMetadata
put_ids client_id [] m = remove_client client_id m
put_ids client_id (x ∷ rest) m =
    rebuild_client_key_indices client_id
      (record m { id_to_key = insert_or_assign client_id (x ∷ rest) m.id_to_key })

-- The common body of the removals from the vector of one client.
unfoldable pub remove_matching : (Ids → Bool) → ℕ → ConnectionMetadata → ConnectionMetadata
remove_matching p client_id m = elim (find client_id m.id_to_key) [
  | none ↦ m
  | some ids_vec ↦ put_ids client_id (keep_if (λ ids. not (p ids)) ids_vec) m
]

unfoldable pub remove_mapping_for_client_and_key : ℕ → ℕ → ConnectionMetadata → ConnectionMetadata
remove_mapping_for_client_and_key client_id key m =
    remove_matching (λ ids. ids.key == key) client_id m

unfoldable pub remove_mapping : ℕ → ℕ → ConnectionMetadata → ConnectionMetadata
remove_mapping client_id remote_handle m =
    remove_matching (λ ids. ids.remote_handle == remote_handle) client_id m

-- The loop of `remove_service` over the clients.
unfoldable pub remove_service_of : ℕ → List ℕ → ConnectionMetadata → ConnectionMetadata
remove_service_of key [] m = m
remove_service_of key (client_id ∷ rest) m =
    remove_service_of key rest (remove_mapping_for_client_and_key client_id key m)

unfoldable pub remove_service : ℕ → ConnectionMetadata → ConnectionMetadata
remove_service key m = remove_service_of key (keys m.id_to_key) m

-- The calls that the loop of `for_each_client` makes, in order.
unfoldable pub visit : ConnectionMetadata → Map ℕ ℕ → Map ℕ Ids
visit m [] = []
visit m ((client_id, index) ∷ rest) =
    let later = visit m rest in
    elim (get_elem? (ids_of client_id m) index) [
      | none ↦ later
      | some ids ↦ (client_id, ids) ∷ later
    ]

unfoldable pub for_each_client : ℕ → ConnectionMetadata → Map ℕ Ids
for_each_client key m = visit m (value_or (find key m.key_to_client_indices) [])
