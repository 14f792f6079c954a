-- ===== src/Map.antt =====
-- `std::map` and `std::unordered_map` as association lists. A key that is written again keeps its
-- place; the order of the entries stands for the container's iteration order.
pub mod Laws
use inc_someip_gateway.Base.{◌≡◌, List, [], ◌∷◌, Option, none, some, if◌then◌else◌, Eq, Bool, map}

abbrev pub Map {ℓ κ} : Type ℓ → Type κ → Type (ℓ ⊔ κ)
Map K V = List (K × V)

module _ {ℓ κ} {K : Type ℓ} {V : Type κ} where
  abbrev pub keys : Map K V → List K
  keys = map (λ e. e.0)

  -- A loop over the entries that changes each value in place.
  unfoldable pub map_values {ι} : {W : Type ι} → (V → W) → Map K V → Map K W
  map_values f [] = []
  map_values f ((k, v) ∷ m) = (k, f v) ∷ map_values f m

  -- A loop that erases the entries whose value fails the test.
  unfoldable pub filter_values : (V → Bool) → Map K V → Map K V
  filter_values p [] = []
  filter_values p ((k, v) ∷ m) = let rest = filter_values p m in if p v then (k, v) ∷ rest else rest

module _ {ℓ κ} {K : Type ℓ} {V : Type κ} ⦃e : Eq K⦄ where
  unfoldable pub find : K → Map K V → Option V
  find k [] = none
  find k ((j, v) ∷ m) = if e.beq j k then some v else find k m

  unfoldable pub insert_or_assign : K → V → Map K V → Map K V
  insert_or_assign k v [] = (k, v) ∷ []
  insert_or_assign k v ((j, w) ∷ m) =
      if e.beq j k then (j, v) ∷ m else (j, w) ∷ insert_or_assign k v m

  unfoldable pub erase : K → Map K V → Map K V
  erase k [] = []
  erase k ((j, w) ∷ m) = let rest = erase k m in if e.beq j k then rest else (j, w) ∷ rest

  -- The keys of a container differ.
  abbrev pub Distinct : Map K V → Type (ℓ ⊔ κ)
  Distinct [] = Unit
  Distinct ((k, v) ∷ m) = (find k m ≡ none) × Distinct m
