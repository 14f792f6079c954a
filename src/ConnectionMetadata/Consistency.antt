-- ===== src/ConnectionMetadata/Consistency.antt =====
-- The index and the vectors tell the same, after every operation.
use inc_someip_gateway.Base.{
  Option, some, ℕ, ◌-◌, ◌≡◌, refl, Bool, not, List, [], ◌∷◌, ◌++◌, if◌then◌else◌, ◌==◌, length,
  length-append, keep_if, value_or, nat_eq, arith, Option-cases, inl, inr,
}
use inc_someip_gateway.Map.{find, insert_or_assign, keys}
use inc_someip_gateway.Map.Laws.{find-insert_or_assign, find-erase}
use inc_someip_gateway.ConnectionMetadata.{
  Ids, ConnectionMetadata, no_connections, ids_of, remove_client_from_key_indices,
  rebuild_client_key_indices, append_mapping, add_mapping, remove_client, put_ids, remove_matching,
  remove_mapping_for_client_and_key, remove_mapping, remove_service_of, remove_service,
}
use inc_someip_gateway.ConnectionMetadata.Indices.{
  index_of, last_index, last_index-append, index_of-set_index, index_of-remove_client,
  index_of-index_ids,
}
use inc_someip_gateway.ConnectionMetadata.Wellformed.{
  IsIndex, set_index-IsIndex, index_ids-IsIndex, remove_client_from_key_indices-IsIndex,
}

pub record IsIndexed (m : ConnectionMetadata) : Type 0 where
  pub index : IsIndex m.key_to_client_indices
  pub agrees : (k c : ℕ) → index_of k c m.key_to_client_indices ≡ last_index k 0 (ids_of c m)

append_mapping-IsIndexed :
    (client : ℕ) (ids : Ids) (m : ConnectionMetadata)
    → IsIndexed m
    → IsIndexed (append_mapping client ids m)
unfolding append_mapping
append_mapping-IsIndexed client ids m v =
    let place = length (ids_of client m ++ ids ∷ []) - 1 in
    let end : place ≡ length (ids_of client m) =
      omega (arith, length-append (ids_of client m) (ids ∷ [])) in
    record {
      index = set_index-IsIndex ids.key client place m.key_to_client_indices v.index;
      agrees = λ k c. ground (
        arith,
        end,
        v.agrees k c,
        v.agrees k client,
        index_of-set_index k c ids.key client place m.key_to_client_indices,
        find-insert_or_assign c client (ids_of client m ++ ids ∷ []) m.id_to_key,
        last_index-append k 0 (ids_of client m) ids,
      );
    }

remove_client-IsIndexed :
    (client : ℕ) (m : ConnectionMetadata) → IsIndexed m → IsIndexed (remove_client client m)
unfolding remove_client last_index
remove_client-IsIndexed client m v = record {
  index = remove_client_from_key_indices-IsIndex client m.key_to_client_indices v.index;
  agrees = λ k c. ground (
    arith,
    v.agrees k c,
    index_of-remove_client k c client m.key_to_client_indices v.index.outer,
    find-erase c client m.id_to_key,
  );
}

put_ids-IsIndexed :
    (client : ℕ) (xs : List Ids) (m : ConnectionMetadata)
    → IsIndexed m
    → IsIndexed (put_ids client xs m)
unfolding put_ids rebuild_client_key_indices
put_ids-IsIndexed client [] m v = remove_client-IsIndexed client m v
put_ids-IsIndexed client (x ∷ xs) m v =
    let removed = remove_client_from_key_indices client m.key_to_client_indices in
    let stored = insert_or_assign client (x ∷ xs) m.id_to_key in
    record {
      index =
          index_ids-IsIndex client 0 (value_or (find client stored) []) removed
            (remove_client_from_key_indices-IsIndex client m.key_to_client_indices v.index);
      agrees = λ k c. ground (
        arith,
        v.agrees k c,
        index_of-remove_client k c client m.key_to_client_indices v.index.outer,
        index_of-index_ids k c client 0 (value_or (find client stored) []) removed,
        find-insert_or_assign c client (x ∷ xs) m.id_to_key,
        find-insert_or_assign client client (x ∷ xs) m.id_to_key,
      );
    }

-- The vectors after a removal from one of them.
ids_of-put_ids :
    (c client : ℕ) (xs : List Ids) (m : ConnectionMetadata)
    → ids_of c (put_ids client xs m) ≡ (if client == c then xs else ids_of c m)
unfolding put_ids rebuild_client_key_indices remove_client
ids_of-put_ids c client [] m = ground (arith, find-erase c client m.id_to_key)
ids_of-put_ids c client (x ∷ xs) m =
    ground (arith, find-insert_or_assign c client (x ∷ xs) m.id_to_key)

remove_matching-IsIndexed :
    (p : Ids → Bool) (client : ℕ) (m : ConnectionMetadata)
    → IsIndexed m
    → IsIndexed (remove_matching p client m)
unfolding remove_matching
remove_matching-IsIndexed p client m v = elim (Option-cases (find client m.id_to_key)) [
  | inl missing ↦ rw (missing, remove_matching) v
  | inr (xs, found) ↦ rw (found, remove_matching) (put_ids-IsIndexed client _ m v)
]

pub ids_of-remove_matching :
    (p : Ids → Bool) (c client : ℕ) (m : ConnectionMetadata)
    → ids_of c (remove_matching p client m)
      ≡ (if client == c then keep_if (λ ids. not (p ids)) (ids_of c m) else ids_of c m)
unfolding remove_matching keep_if
ids_of-remove_matching p c client m = elim (Option-cases (find client m.id_to_key)) [
  | inl missing ↦ ground arith
  | inr (xs, found) ↦ ground (arith, ids_of-put_ids c client (keep_if (λ ids. not (p ids)) xs) m)
]

remove_service_of-IsIndexed :
    (key : ℕ) (clients : List ℕ) (m : ConnectionMetadata)
    → IsIndexed m
    → IsIndexed (remove_service_of key clients m)
unfolding remove_service_of remove_mapping_for_client_and_key
remove_service_of-IsIndexed key [] m v = v
remove_service_of-IsIndexed key (client ∷ rest) m v =
    remove_service_of-IsIndexed key rest (remove_mapping_for_client_and_key client key m)
      (remove_matching-IsIndexed (λ ids. ids.key == key) client m v)

-- The calls that change the connections.
pub data Call : Type 0 where
  adds : ℕ → Ids → Call
  removes_client removes_service : ℕ → Call
  removes_mapping removes_for_client_and_key : ℕ → ℕ → Call

-- A call that removes, or the adding behind its assertion.
unfoldable pub modify : Call → ConnectionMetadata → ConnectionMetadata
modify (adds client ids) m = append_mapping client ids m
modify (removes_client client) m = remove_client client m
modify (removes_service key) m = remove_service key m
modify (removes_mapping client remote_handle) m = remove_mapping client remote_handle m
modify (removes_for_client_and_key client key) m = remove_mapping_for_client_and_key client key m

-- `none` for a failed assertion.
unfoldable pub apply : Call → ConnectionMetadata → Option ConnectionMetadata
apply (adds client ids) m = add_mapping client ids m
apply (removes_client client) m = some (remove_client client m)
apply (removes_service key) m = some (remove_service key m)
apply (removes_mapping client remote_handle) m = some (remove_mapping client remote_handle m)
apply (removes_for_client_and_key client key) m =
    some (remove_mapping_for_client_and_key client key m)

pub modify-IsIndexed :
    (call : Call) (m : ConnectionMetadata) → IsIndexed m → IsIndexed (modify call m)
unfolding modify remove_service remove_mapping remove_mapping_for_client_and_key
modify-IsIndexed (adds client ids) m v = append_mapping-IsIndexed client ids m v
modify-IsIndexed (removes_client client) m v = remove_client-IsIndexed client m v
modify-IsIndexed (removes_service key) m v = remove_service_of-IsIndexed key (keys m.id_to_key) m v
modify-IsIndexed (removes_mapping client remote_handle) m v = remove_matching-IsIndexed _ client m v
modify-IsIndexed (removes_for_client_and_key client key) m v =
    remove_matching-IsIndexed _ client m v

-- A call does nothing else.
pub apply-modify :
    (call : Call) (m m' : ConnectionMetadata) → apply call m ≡ some m' → modify call m ≡ m'
unfolding apply modify add_mapping
apply-modify (adds client ids) m m' e = ground arith
apply-modify (removes_client client) m m' e = ground arith
apply-modify (removes_service key) m m' e = ground arith
apply-modify (removes_mapping client remote_handle) m m' e = ground arith
apply-modify (removes_for_client_and_key client key) m m' e = ground arith

-- If the index gives, for each key and client, the place of the last connection with that key in
-- the client's vector, and nothing if there is none, it does so after every call that fails no
-- assertion.
pub apply-IsIndexed :
    (call : Call) (m m' : ConnectionMetadata) → IsIndexed m → apply call m ≡ some m' → IsIndexed m'
apply-IsIndexed call m m' v e = rw (← apply-modify call m m' e) (modify-IsIndexed call m v)

pub no_connections-IsIndexed : IsIndexed no_connections
unfolding index_of last_index find
no_connections-IsIndexed = record {
  index = record { outer = tt; inner = λ k. tt };
  agrees = λ k c. refl;
}
