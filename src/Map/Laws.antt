-- ===== src/Map/Laws.antt =====
-- What a lookup sees after each operation of a map.
use inc_someip_gateway.Base.{◌≡◌, refl, [], ◌∷◌, Option, none, some, if◌then◌else◌, Eq, Bool, arith}
use mathlib.Core.Option
use inc_someip_gateway.Map.{Map, find, insert_or_assign, erase, map_values, filter_values, Distinct}

-- The value if it passes the test.
abbrev pub passing {κ} : {V : Type κ} → (V → Bool) → Option V → Option V
passing p none = none
passing p (some v) = if p v then some v else none

module _ {ℓ κ} {K : Type ℓ} {V : Type κ} ⦃e : Eq K⦄ where
  pub find-insert_or_assign :
      (j k : K) (v : V) (m : Map K V)
      → find j (insert_or_assign k v m) ≡ (if e.beq k j then some v else find j m)
  unfolding find insert_or_assign
  find-insert_or_assign j k v [] = refl
  find-insert_or_assign j k v ((i, w) ∷ m) =
      ground (arith, e.beq_iff i k, e.beq_iff i j, e.beq_iff k j, find-insert_or_assign j k v m)

  pub find-erase :
      (j k : K) (m : Map K V) → find j (erase k m) ≡ (if e.beq k j then none else find j m)
  unfolding find erase
  find-erase j k [] = ground arith
  find-erase j k ((i, w) ∷ m) =
      ground (arith, e.beq_iff i k, e.beq_iff i j, e.beq_iff k j, find-erase j k m)

  pub find-map_values {ι} :
      {W : Type ι} (f : V → W) (j : K) (m : Map K V)
      → find j (map_values f m) ≡ Option.map f (find j m)
  unfolding find map_values
  find-map_values f j [] = refl
  find-map_values f j ((i, w) ∷ m) = ground (arith, find-map_values f j m)

  pub find-filter_values :
      (p : V → Bool) (j : K) (m : Map K V)
      → Distinct m
      → find j (filter_values p m) ≡ passing p (find j m)
  unfolding find filter_values
  find-filter_values p j [] d = refl
  find-filter_values p j ((i, w) ∷ m) d =
      ground (arith, e.beq_iff i j, find-filter_values p j m d.1, d.0)

  pub insert_or_assign-Distinct :
      (k : K) (v : V) (m : Map K V) → Distinct m → Distinct (insert_or_assign k v m)
  unfolding find insert_or_assign
  insert_or_assign-Distinct k v [] d = (refl, tt)
  insert_or_assign-Distinct k v ((i, w) ∷ m) d = ground (
    arith,
    e.beq_iff i k,
    e.beq_iff k i,
    find-insert_or_assign i k v m,
    insert_or_assign-Distinct k v m d.1,
  )

  pub erase-Distinct : (k : K) (m : Map K V) → Distinct m → Distinct (erase k m)
  unfolding find erase
  erase-Distinct k [] d = d
  erase-Distinct k ((i, w) ∷ m) d = ground (arith, find-erase i k m, erase-Distinct k m d.1)

  pub map_values-Distinct {ι} :
      {W : Type ι} (f : V → W) (m : Map K V) → Distinct m → Distinct (map_values f m)
  unfolding find map_values
  map_values-Distinct f [] d = tt
  map_values-Distinct f ((i, w) ∷ m) d =
      ground (arith, find-map_values f i m, map_values-Distinct f m d.1)

  pub filter_values-Distinct :
      (p : V → Bool) (m : Map K V) → Distinct m → Distinct (filter_values p m)
  unfolding find filter_values
  filter_values-Distinct p [] d = d
  filter_values-Distinct p ((i, w) ∷ m) d =
      ground (arith, find-filter_values p i m d.1, filter_values-Distinct p m d.1)
