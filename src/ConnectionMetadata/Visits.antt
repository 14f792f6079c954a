-- ===== src/ConnectionMetadata/Visits.antt =====
-- What the lookups and `for_each_client` find.
use inc_someip_gateway.Base.{
  ℕ, suc, ◌+◌, ◌-◌, ◌≤◌, ◌≡◌, refl, ap, ◌∙◌, Bool, true, false, not, ◌&&◌, List, [], ◌∷◌, Option,
  none, some, if◌then◌else◌, ◌==◌, get_elem?, keep_if, value_or, nat_eq, arith, Option-cases, inl,
  inr, is_some,
}
use inc_someip_gateway.Map.{Map, find, Distinct, keys}
use inc_someip_gateway.ConnectionMetadata.{
  Ids, ConnectionMetadata, ids_of, remove_mapping_for_client_and_key, remove_service_of,
  remove_service, visit, for_each_client,
}
use inc_someip_gateway.ConnectionMetadata.Indices.{index_of, last_index}
use inc_someip_gateway.ConnectionMetadata.Consistency.{IsIndexed, ids_of-remove_matching}

-- The last of the ids with a key.
unfoldable pub last_with : ℕ → List Ids → Option Ids
last_with k [] = none
last_with k (x ∷ xs) = elim (last_with k xs) [
  | some y ↦ some y
  | none ↦ if x.key == k then some x else none
]

last_index-le : (k i j : ℕ) (xs : List Ids) → last_index k i xs ≡ some j → i ≤ j
unfolding last_index
last_index-le k i j [] e = absurd (cc)
last_index-le k i j (x ∷ xs) e = ground (arith, last_index-le k (i + 1) j xs)

is_some-last_index :
    (k i : ℕ) (xs : List Ids) → is_some (last_index k i xs) ≡ is_some (last_with k xs)
unfolding last_index last_with
is_some-last_index k i [] = refl
is_some-last_index k i (x ∷ xs) = ground (arith, is_some-last_index k (i + 1) xs)

get_elem?-last_index :
    (k i j : ℕ) (xs : List Ids) → last_index k i xs ≡ some j → get_elem? xs (j - i) ≡ last_with k xs
unfolding last_index last_with
get_elem?-last_index k i j [] e = absurd (cc)
get_elem?-last_index k i j (x ∷ xs) e = elim (Option-cases (last_index k (i + 1) xs)) [
  | inl missing ↦
      let first : j - i ≡ 0 = ground arith in
      rw first (ground (arith, is_some-last_index k (i + 1) xs))
  | inr (j', later) ↦
      let same : j' ≡ j = ground arith in
      let found = later ∙ ap some same in
      let le = last_index-le k (i + 1) j xs found in
      let step : j - i ≡ suc (j - (i + 1)) = omega arith in
      rw step
        (ground (arith, get_elem?-last_index k (i + 1) j xs found, is_some-last_index k (i + 1) xs))
]

find-visit :
    (c : ℕ) (m : ConnectionMetadata) (clients : Map ℕ ℕ)
    → Distinct clients
    → find c (visit m clients)
      ≡ elim (find c clients) [ none ↦ none | some index ↦ get_elem? (ids_of c m) index ]
unfolding visit find
find-visit c m [] d = refl
find-visit c m ((b, index) ∷ rest) d = ground (arith, find-visit c m rest d.1, d.0)

visit-Distinct :
    (m : ConnectionMetadata) (clients : Map ℕ ℕ) → Distinct clients → Distinct (visit m clients)
unfolding visit find
visit-Distinct m [] d = tt
visit-Distinct m ((b, index) ∷ rest) d =
    ground (arith, find-visit b m rest d.1, visit-Distinct m rest d.1, d.0)

-- `for_each_client` calls its function, for each client that has a connection with the key, once and
-- with the last of these connections, and for no other client.
pub for_each_client-last_with :
    (key c : ℕ) (m : ConnectionMetadata)
    → IsIndexed m
    → (find c (for_each_client key m) ≡ last_with key (ids_of c m))
      × Distinct (for_each_client key m)
unfolding for_each_client index_of
for_each_client-last_with key c m v =
    let clients = value_or (find key m.key_to_client_indices) [] in
    let seen = find-visit c m clients (v.index.inner key) in
    let same = is_some-last_index key 0 (ids_of c m) in
    (
      elim (Option-cases (last_index key 0 (ids_of c m))) [
        | inl missing ↦ ground (arith, seen, v.agrees key c, same)
        | inr (j, at) ↦
            ground (arith, seen, v.agrees key c, get_elem?-last_index key 0 j (ids_of c m) at)
      ],
      visit-Distinct m clients (v.index.inner key),
    )

last_with-keep_if :
    (k key : ℕ) (xs : List Ids)
    → last_with k (keep_if (λ ids. not (ids.key == key)) xs)
      ≡ (if key == k then none else last_with k xs)
unfolding last_with keep_if
last_with-keep_if k key [] = ground arith
last_with-keep_if k key (x ∷ xs) = ground (arith, last_with-keep_if k key xs)

-- Whether a client stands in a list.
unfoldable pub listed : ℕ → List ℕ → Bool
listed c [] = false
listed c (x ∷ xs) = if x == c then true else listed c xs

last_with-remove_service_of :
    (key k c : ℕ) (clients : List ℕ) (m : ConnectionMetadata)
    → last_with k (ids_of c (remove_service_of key clients m))
      ≡ (if (key == k) && listed c clients then none else last_with k (ids_of c m))
unfolding remove_service_of remove_mapping_for_client_and_key listed
last_with-remove_service_of key k c [] m = ground arith
last_with-remove_service_of key k c (b ∷ rest) m = ground (
  arith,
  last_with-remove_service_of key k c rest (remove_mapping_for_client_and_key b key m),
  ids_of-remove_matching (λ ids. ids.key == key) c b m,
  last_with-keep_if k key (ids_of c m),
)

listed-keys : {V : Type 0} (c : ℕ) (m : Map ℕ V) → listed c (keys m) ≡ is_some (find c m)
unfolding listed find
listed-keys c [] = refl
listed-keys c ((b, v) ∷ m) = ground (arith, listed-keys c m)

-- `remove_service` takes away the connections of the service for every client, and none of another
-- service.
remove_service-last_with :
    (key k c : ℕ) (m : ConnectionMetadata)
    → last_with k (ids_of c (remove_service key m))
      ≡ (if key == k then none else last_with k (ids_of c m))
unfolding remove_service last_with
remove_service-last_with key k c m =
    ground
      (arith, last_with-remove_service_of key k c (keys m.id_to_key) m, listed-keys c m.id_to_key)
