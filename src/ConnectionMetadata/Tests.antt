-- ===== src/ConnectionMetadata/Tests.antt =====
-- Two clients, the first with two connections.
use inc_someip_gateway.Base.{ℕ, ◌≡◌, refl, [], none, some, nat_eq}
use inc_someip_gateway.Map.{find, insert_or_assign, Distinct}
use inc_someip_gateway.Wire.{Metadata}
use inc_someip_gateway.ConnectionMetadata.{
  Ids, ConnectionMetadata, no_connections, ids_of, append_mapping, add_mapping, is_mapping_present,
  find_conflict, remove_service, get_by_remote_handle, first_with, remove_mapping, for_each_client,
}
use inc_someip_gateway.ConnectionMetadata.Consistency.{
  IsIndexed, no_connections-IsIndexed, adds, removes_service, apply, apply-IsIndexed,
}
use inc_someip_gateway.ConnectionMetadata.Visits.{last_with, for_each_client-last_with}
use inc_someip_gateway.ConnectionMetadata.Lookups.{add_mapping_shadowed}

abbrev no_memory : Metadata
no_memory = record { path = []; slot_size = 16; slot_count = 2 }

abbrev connection : ℕ → ℕ → ℕ → Ids
connection key local_handle remote_handle = record {
  key = key;
  local_handle = local_handle;
  remote_handle = remote_handle;
  local_metadata = no_memory;
  remote_metadata = no_memory;
}

abbrev one_client : ConnectionMetadata
one_client = append_mapping 7 (connection 0 1 1) no_connections

one_client-IsIndexed : IsIndexed one_client
one_client-IsIndexed =
    apply-IsIndexed (adds 7 (connection 0 1 1)) no_connections one_client no_connections-IsIndexed
      (unfold apply add_mapping is_mapping_present find_conflict find in refl)

apply-IsIndexed_example : IsIndexed (remove_service 0 one_client)
apply-IsIndexed_example =
    apply-IsIndexed (removes_service 0) one_client (remove_service 0 one_client)
      one_client-IsIndexed (unfold apply in refl)

for_each_client-last_with_example :
    (find 7 (for_each_client 0 one_client) ≡ last_with 0 (ids_of 7 one_client))
    × Distinct (for_each_client 0 one_client)
for_each_client-last_with_example = for_each_client-last_with 0 7 one_client one_client-IsIndexed

-- Another service and local handle, with the remote handle of the first.
abbrev shadowed : ConnectionMetadata
shadowed = append_mapping 7 (connection 1 2 1) one_client

add_mapping_shadowed_example :
    (get_by_remote_handle 7 1 shadowed ≡ some (connection 0 1 1))
    × (get_by_remote_handle 7 1 (remove_mapping 7 1 shadowed) ≡ none)
unfolding add_mapping is_mapping_present find_conflict append_mapping get_by_remote_handle
    first_with find insert_or_assign
add_mapping_shadowed_example =
    add_mapping_shadowed 7 (connection 1 2 1) (connection 0 1 1) one_client shadowed refl refl
