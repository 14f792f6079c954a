-- ===== src/Keys/Numbering.antt =====
-- A key stands for one pair of a service and an instance, for good.
use inc_someip_gateway.Base.{
  ◌↔◌, ℕ, ◌+◌, ◌^◌, ◌<◌, ◌≡◌, inl, inr, refl, sym, ◌∙◌, ◌&&◌, [], none, some, if◌then◌else◌,
  value_or, arith, Option-cases,
}
use mathlib.Core.Path.{ap₂}
use inc_someip_gateway.Map.{find, insert_or_assign}
use inc_someip_gateway.Map.Laws.{find-insert_or_assign, insert_or_assign-Distinct}
use inc_someip_gateway.Strings.{string_eq, list_beq, list_beq_iff}
use inc_someip_gateway.Wire.{Service, service_eq, service_beq, service_beq_iff, InstanceId}
use inc_someip_gateway.Keys.Search.{
  AllDistinct, key_in, find_service-some, find_service-none, insert_or_assign-AllDistinct,
  find-AllDistinct,
}
use inc_someip_gateway.Keys.{
  Keys, no_keys, get_next_id, known_key, new_key, get, find_service, get_pair,
}

-- The keys in use differ from pair to pair, and lie below the next one.
pub record IsNumbering (k : Keys) : Type 0 where
  pub below : (s : Service) (i : InstanceId) (n : ℕ) → known_key s i k ≡ some n → n < k.next_key
  pub unique :
      (s t : Service) (i j : InstanceId) (n : ℕ)
      → known_key s i k ≡ some n
      → known_key t j k ≡ some n
      → (s ≡ t) × (i ≡ j)
  pub distinct : AllDistinct k.keys

known_key-new_key :
    (s t : Service) (i j : InstanceId) (k : Keys)
    → known_key t j (new_key s i k).0
      ≡ (if service_beq s t && list_beq i j then some k.next_key else known_key t j k)
unfolding known_key new_key get_next_id find
known_key-new_key s t i j k =
    let old = value_or (find s k.keys) [] in
    ground (
      arith,
      service_beq_iff s t,
      find-insert_or_assign t s (insert_or_assign i k.next_key old) k.keys,
      find-insert_or_assign j i k.next_key old,
    )

pub no_keys-IsNumbering : IsNumbering no_keys
unfolding known_key find
no_keys-IsNumbering = record {
  below = λ s i n e. absurd (cc);
  unique = λ s t i j n e f. absurd (cc);
  distinct = tt;
}

new_key-IsNumbering :
    (s : Service) (i : InstanceId) (k : Keys)
    → k.next_key + 1 < 2 ^ 64
    → IsNumbering k
    → IsNumbering (new_key s i k).0
unfolding new_key get_next_id
new_key-IsNumbering s i k small v = record {
  below = λ t j n e. ground (arith, known_key-new_key s t i j k, v.below t j n);
  unique = λ t u j l n e f. ground (
    arith,
    known_key-new_key s t i j k,
    known_key-new_key s u i l k,
    service_beq_iff s t,
    service_beq_iff s u,
    list_beq_iff i j,
    list_beq_iff i l,
    v.below t j n,
    v.below u l n,
    v.unique t u j l n,
  );
  distinct =
      insert_or_assign-AllDistinct s _ k.keys
        (insert_or_assign-Distinct i _ _ (find-AllDistinct s k.keys v.distinct)) v.distinct;
}

-- `get` keeps the numbering, and its key is the one that is known from then on.
get-IsNumbering :
    (s : Service) (i : InstanceId) (k : Keys)
    → k.next_key + 1 < 2 ^ 64
    → IsNumbering k
    → IsNumbering (get s i k).0 × (known_key s i (get s i k).0 ≡ some (get s i k).1)
unfolding get new_key get_next_id
get-IsNumbering s i k small v = elim (Option-cases (known_key s i k)) [
  | inl fresh ↦ rw (fresh, get) (new_key-IsNumbering s i k small v, given fresh)
  | inr (n, old) ↦ rw (old, get) (v, old)
]
  where
    given : known_key s i k ≡ none → known_key s i (new_key s i k).0 ≡ some (new_key s i k).1
    given fresh = ground (arith, known_key-new_key s s i i k, service_beq_iff s s, list_beq_iff i i)

-- `get` changes the key of no pair that has one.
get-known_key :
    (s t : Service) (i j : InstanceId) (k : Keys) (n : ℕ)
    → known_key t j k ≡ some n
    → known_key t j (get s i k).0 ≡ some n
unfolding get
get-known_key s t i j k n e =
    ground (arith, known_key-new_key s t i j k, service_beq_iff s t, list_beq_iff i j)

known_key-key_in : (s : Service) (i : InstanceId) (k : Keys) → known_key s i k ≡ key_in s i k.keys
unfolding known_key key_in
known_key-key_in s i k = refl

get_pair-known :
    (s : Service) (i : InstanceId) (k : Keys) (n : ℕ)
    → IsNumbering k
    → known_key s i k ≡ some n
    → get_pair n k ≡ some (s, i)
unfolding get_pair
get_pair-known s i k n v known = elim (Option-cases (find_service n k.keys)) [
  | inl missing ↦
      absurd (find_service-none n k.keys s i missing (sym (known_key-key_in s i k) ∙ known))
  | inr ((t, j), found) ↦
      let other = find_service-some n k.keys t j v.distinct found in
      let (services, instances) = v.unique t s j i n (known_key-key_in t j k ∙ other) known in
      found ∙ ap₂ (λ a b. some (a, b)) services instances
]

-- The key that `get` gives for a pair leads back to the pair, in a numbering whose next key does not
-- wrap around.
get_pair-get :
    (s : Service) (i : InstanceId) (k : Keys)
    → k.next_key + 1 < 2 ^ 64
    → IsNumbering k
    → get_pair (get s i k).1 (get s i k).0 ≡ some (s, i)
get_pair-get s i k small v =
    let (later, known) = get-IsNumbering s i k small v in
    get_pair-known s i (get s i k).0 (get s i k).1 later known

next_key-get :
    (s : Service) (i : InstanceId) (k : Keys)
    → k.next_key + 2 < 2 ^ 64
    → (get s i k).0.next_key + 1 < 2 ^ 64
unfolding get new_key get_next_id
next_key-get s i k small = ground arith

-- Two calls of `get`, one after the other, give the same key exactly when they are for the same
-- service and instance, in a numbering whose next two keys do not wrap around.
pub get_eq_iff :
    (s t : Service) (i j : InstanceId) (k : Keys)
    → k.next_key + 2 < 2 ^ 64
    → IsNumbering k
    → ((get s i k).1 ≡ (get t j (get s i k).0).1) ↔ ((s ≡ t) × (i ≡ j))
get_eq_iff s t i j k small v =
    let (v1, known1) = get-IsNumbering s i k (omega arith) v in
    let (v2, known2) = get-IsNumbering t j (get s i k).0 (next_key-get s i k small) v1 in
    let still = get-known_key t s j i (get s i k).0 (get s i k).1 known1 in
    (
      λ e. v2.unique s t i j (get s i k).1 still (rw e known2),
      λ e.
          let same =
            sym still ∙ ap₂ (λ a b. known_key a b (get t j (get s i k).0).0) e.0 e.1 ∙ known2 in
          cc same,
    )
