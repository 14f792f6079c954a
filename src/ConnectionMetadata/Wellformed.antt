-- ===== src/ConnectionMetadata/Wellformed.antt =====
-- The index never holds a key or a client twice.
use inc_someip_gateway.Base.{
  ℕ, ◌+◌, Bool, true, false, not, List, [], ◌∷◌, Option, none, some, if◌then◌else◌, ◌==◌, is_empty,
  value_or, nat_eq,
}
use mathlib.Core.Option
use inc_someip_gateway.Map.{Map, find, insert_or_assign, erase, map_values, Distinct}
use inc_someip_gateway.Map.Laws.{
  find-insert_or_assign, find-map_values, find-filter_values, passing, insert_or_assign-Distinct,
  erase-Distinct, map_values-Distinct, filter_values-Distinct,
}
use inc_someip_gateway.ConnectionMetadata.{
  Ids, KeyIndices, set_index, remove_client_from_key_indices, index_ids,
}

-- No key and no client is there twice.
pub record IsIndex (indices : KeyIndices) : Type 0 where
  pub outer : Distinct indices
  pub inner : (k : ℕ) → Distinct (value_or (find k indices) [])

pub set_index-IsIndex :
    (key client i : ℕ) (m : KeyIndices) → IsIndex m → IsIndex (set_index key client i m)
unfolding set_index
set_index-IsIndex key client i m v = record {
  outer = insert_or_assign-Distinct key _ m v.outer;
  inner = λ k.
      let old = value_or (find key m) [] in
      rw (find-insert_or_assign k key (insert_or_assign client i old) m)
        (inner k (key == k) _ (insert_or_assign-Distinct client i old (v.inner key)));
}
  where
    inner :
        (k : ℕ) (hit : Bool) (new : Map ℕ ℕ)
        → Distinct new
        → Distinct (value_or (if hit then some new else find k m) [])
    inner k true new d = d
    inner k false new d = v.inner k

pub index_ids-IsIndex :
    (client i : ℕ) (xs : List Ids) (m : KeyIndices) → IsIndex m → IsIndex (index_ids client i xs m)
unfolding index_ids
index_ids-IsIndex client i [] m v = v
index_ids-IsIndex client i (x ∷ xs) m v =
    index_ids-IsIndex client (i + 1) xs (set_index x.key client i m)
      (set_index-IsIndex x.key client i m v)

pub remove_client_from_key_indices-IsIndex :
    (client : ℕ) (m : KeyIndices) → IsIndex m → IsIndex (remove_client_from_key_indices client m)
unfolding remove_client_from_key_indices
remove_client_from_key_indices-IsIndex client m v = record {
  outer = filter_values-Distinct _ _ (map_values-Distinct (erase client) m v.outer);
  inner = λ k.
      rw
        (
          find-filter_values (λ (cs : Map ℕ ℕ). not (is_empty cs)) k (map_values (erase client) m)
              (map_values-Distinct (erase client) m v.outer),
          find-map_values (erase client) k m,
        )
        (inner (find k m) (v.inner k));
}
  where
    inner :
        (o : Option (Map ℕ ℕ))
        → Distinct (value_or o [])
        → Distinct (
            value_or
              (passing (λ (cs : Map ℕ ℕ). not (is_empty cs)) (Option.map (erase client) o))
              [])
    inner none d = d
    inner (some cs) d = pick (is_empty (erase client cs)) _ (erase-Distinct client cs d)
      where
        pick :
            (b : Bool) (xs : Map ℕ ℕ)
            → Distinct xs
            → Distinct (value_or (if not b then some xs else none) [])
        pick true xs d = tt
        pick false xs d = d
