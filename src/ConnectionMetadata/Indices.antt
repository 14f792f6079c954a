-- ===== src/ConnectionMetadata/Indices.antt =====
-- The lookups through the index after each of its changes.
use inc_someip_gateway.Base.{
  ℕ, ◌+◌, ◌≡◌, ap, ◌∙◌, not, ◌&&◌, List, [], ◌∷◌, ◌++◌, Option, none, some, if◌then◌else◌, ◌==◌,
  length, is_empty, value_or, nat_eq, arith, Option-cases, Bool-cases, inl, inr,
}
use mathlib.Core.Option
use inc_someip_gateway.Map.{Map, find, insert_or_assign, erase, map_values, Distinct}
use inc_someip_gateway.Map.Laws.{
  find-insert_or_assign, find-erase, find-map_values, find-filter_values, passing,
  map_values-Distinct,
}
use inc_someip_gateway.ConnectionMetadata.{
  Ids, KeyIndices, set_index, remove_client_from_key_indices, index_ids,
}

-- The place that the index gives for a key and a client.
unfoldable pub index_of : ℕ → ℕ → KeyIndices → Option ℕ
index_of k c indices = find c (value_or (find k indices) [])

-- The place of the last of the ids with the key, where `i` is the place of the first of them.
unfoldable pub last_index : ℕ → ℕ → List Ids → Option ℕ
last_index k i [] = none
last_index k i (x ∷ xs) = elim (last_index k (i + 1) xs) [
  | some j ↦ some j
  | none ↦ if x.key == k then some i else none
]

pub last_index-append :
    (k i : ℕ) (xs : List Ids) (x : Ids)
    → last_index k i (xs ++ x ∷ [])
      ≡ (if x.key == k then some (i + length xs) else last_index k i xs)
unfolding last_index
last_index-append k i [] x = ground arith
last_index-append k i (y ∷ xs) x = ground (arith, last_index-append k (i + 1) xs x)

pub index_of-set_index :
    (k c key client i : ℕ) (m : KeyIndices)
    → index_of k c (set_index key client i m)
      ≡ (if (key == k) && (client == c) then some i else index_of k c m)
unfolding index_of set_index find
index_of-set_index k c key client i m =
    let old = value_or (find key m) [] in
    ground (
      arith,
      find-insert_or_assign k key (insert_or_assign client i old) m,
      find-insert_or_assign c client i old,
    )

pub index_of-remove_client :
    (k c client : ℕ) (m : KeyIndices)
    → Distinct m
    → index_of k c (remove_client_from_key_indices client m)
      ≡ (if client == c then none else index_of k c m)
unfolding index_of remove_client_from_key_indices find
index_of-remove_client k c client m d =
    let kept = λ (clients : Map ℕ ℕ). not (is_empty clients) in
    let shrunk = map_values (erase client) m in
    let seen = find-filter_values kept k shrunk (map_values-Distinct (erase client) m d) in
    let inner = find-map_values (erase client) k m in
    elim (Option-cases (find k m)) [
      | inl missing ↦ ground (arith, seen, inner, missing)
      | inr (clients, found) ↦
          found_case clients found
            (seen ∙ ap (passing kept) (inner ∙ ap (Option.map (erase client)) found))
    ]
  where
    found_case :
        (clients : Map ℕ ℕ)
        → find k m ≡ some clients
        → find k (remove_client_from_key_indices client m)
          ≡ passing (λ (cs : Map ℕ ℕ). not (is_empty cs)) (some (erase client clients))
        → index_of k c (remove_client_from_key_indices client m)
          ≡ (if client == c then none else index_of k c m)
    found_case clients found seen = elim (Bool-cases (is_empty (erase client clients))) [
      | inl gone ↦ ground (arith, seen, found, find-erase c client clients)
      | inr left ↦ ground (arith, seen, found, find-erase c client clients)
    ]

pub index_of-index_ids :
    (k c client i : ℕ) (xs : List Ids) (m : KeyIndices)
    → index_of k c (index_ids client i xs m) ≡ (
        if client == c
        then elim (last_index k i xs) [ some j ↦ some j | none ↦ index_of k c m ]
        else index_of k c m)
unfolding index_ids last_index
index_of-index_ids k c client i [] m = ground arith
index_of-index_ids k c client i (x ∷ xs) m = ground (
  arith,
  index_of-index_ids k c client (i + 1) xs (set_index x.key client i m),
  index_of-set_index k c x.key client i m,
)
