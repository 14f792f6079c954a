-- ===== src/ConnectionMetadata/Lookups.antt =====
-- What the lookups by a handle find.
use inc_someip_gateway.Base.{
  ℕ, ◌≡◌, refl, Bool, true, not, List, [], ◌∷◌, ◌++◌, none, some, ◌==◌, keep_if, nat_eq, arith,
}
use inc_someip_gateway.Map.Laws.{find-insert_or_assign}
use inc_someip_gateway.ConnectionMetadata.{
  Ids, ConnectionMetadata, ids_of, append_mapping, add_mapping, first_with, get_by_remote_handle,
  get_by_local_handle, remove_mapping, remove_matching,
}
use inc_someip_gateway.ConnectionMetadata.Consistency.{
  ids_of-remove_matching, adds, apply, modify, apply-modify,
}

first_with-append :
    (p : Ids → Bool) (xs : List Ids) (x old : Ids)
    → first_with p xs ≡ some old
    → first_with p (xs ++ x ∷ []) ≡ some old
unfolding first_with
first_with-append p [] x old e = absurd (cc)
first_with-append p (y ∷ xs) x old e = ground (arith, first_with-append p xs x old)

first_with-keep_if :
    (p : Ids → Bool) (xs : List Ids) → first_with p (keep_if (λ x. not (p x)) xs) ≡ none
unfolding first_with keep_if
first_with-keep_if p [] = refl
first_with-keep_if p (x ∷ xs) = ground (arith, first_with-keep_if p xs)

-- A connection that is added, without a failed assertion, with a remote handle that a connection of the client has already is not
-- found by that handle: the lookup goes on finding the older one, and a removal by the handle takes
-- both away.
pub add_mapping_shadowed :
    (client : ℕ) (ids old : Ids) (m m' : ConnectionMetadata)
    → get_by_remote_handle client ids.remote_handle m ≡ some old
    → add_mapping client ids m ≡ some m'
    → (get_by_remote_handle client ids.remote_handle m' ≡ some old)
      × (get_by_remote_handle client ids.remote_handle (remove_mapping client ids.remote_handle m')
          ≡ none)
unfolding get_by_remote_handle append_mapping remove_mapping apply modify
add_mapping_shadowed client ids old m m' e added =
    let same : append_mapping client ids m ≡ m' = apply-modify (adds client ids) m m' added in
    let shadowed : get_by_remote_handle client ids.remote_handle (append_mapping client ids m)
        ≡ some old =
      ground (
        arith,
        find-insert_or_assign client client (ids_of client m ++ ids ∷ []) m.id_to_key,
        first_with-append (λ x. x.remote_handle == ids.remote_handle) (ids_of client m) ids old,
      ) in
    (rw (← same) shadowed, removed m')
  where
    by_handle : Ids → Bool
    by_handle x = x.remote_handle == ids.remote_handle

    removed :
        (n : ConnectionMetadata)
        → first_with by_handle (ids_of client (remove_matching by_handle client n)) ≡ none
    removed n = ground (
      arith,
      ids_of-remove_matching by_handle client client n,
      first_with-keep_if by_handle (ids_of client n),
    )

first_with-fresh :
    (p : Ids → Bool) (xs : List Ids) (x : Ids)
    → first_with p xs ≡ none
    → p x ≡ true
    → first_with p (xs ++ x ∷ []) ≡ some x
unfolding first_with
first_with-fresh p [] x e hit = ground arith
first_with-fresh p (y ∷ xs) x e hit = ground (arith, first_with-fresh p xs x)

-- A connection with new handles is found by both of them.
append_mapping-found :
    (client : ℕ) (ids : Ids) (m : ConnectionMetadata)
    → get_by_remote_handle client ids.remote_handle m ≡ none
    → get_by_local_handle client ids.local_handle m ≡ none
    → (get_by_remote_handle client ids.remote_handle (append_mapping client ids m) ≡ some ids)
      × (get_by_local_handle client ids.local_handle (append_mapping client ids m) ≡ some ids)
unfolding get_by_remote_handle get_by_local_handle append_mapping
append_mapping-found client ids m no_remote no_local = (
  ground (
    arith,
    find-insert_or_assign client client (ids_of client m ++ ids ∷ []) m.id_to_key,
    first_with-fresh (λ x. x.remote_handle == ids.remote_handle) (ids_of client m) ids,
  ),
  ground (
    arith,
    find-insert_or_assign client client (ids_of client m ++ ids ∷ []) m.id_to_key,
    first_with-fresh (λ x. x.local_handle == ids.local_handle) (ids_of client m) ids,
  ),
)
