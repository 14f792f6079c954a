-- ===== src/Keys/Search.antt =====
-- The search for the pair of a key, as the inverse of the lookup of a pair.
use inc_someip_gateway.Base.{
  ℕ, ◌≡◌, ◌≢◌, refl, [], ◌∷◌, Option, none, some, value_or, arith, Option-cases, inl, inr,
}
use inc_someip_gateway.Map.{Map, find, insert_or_assign, Distinct}
use inc_someip_gateway.Map.Laws.{find-insert_or_assign}
use inc_someip_gateway.Strings.{string_eq, list_beq_iff}
use inc_someip_gateway.Wire.{Service, service_eq, service_beq_iff, InstanceId}
use inc_someip_gateway.Keys.{find_instance, find_service}

-- What the search for a key finds is a pair with that key.
find_instance-some :
    (key : ℕ) (m : Map InstanceId ℕ) (i : InstanceId)
    → Distinct m
    → find_instance key m ≡ some i
    → find i m ≡ some key
unfolding find_instance find
find_instance-some key [] i d e = cc
find_instance-some key ((j, n) ∷ rest) i d e =
    ground (arith, find_instance-some key rest i d.1, list_beq_iff j i, d.0)

find_instance-none :
    (key : ℕ) (m : Map InstanceId ℕ) (i : InstanceId)
    → find_instance key m ≡ none
    → find i m ≢ some key
unfolding find_instance find
find_instance-none key [] i e f = cc
find_instance-none key ((j, n) ∷ rest) i e f = ground (arith, find_instance-none key rest i)

-- The instances of every service, and the services, differ.
abbrev pub AllDistinct : Map Service (Map InstanceId ℕ) → Type 0
AllDistinct [] = Unit
AllDistinct ((s, instances) ∷ rest) = (find s rest ≡ none) × Distinct instances × AllDistinct rest

-- The key of a pair in the two-level map.
unfoldable pub key_in : Service → InstanceId → Map Service (Map InstanceId ℕ) → Option ℕ
key_in s i m = elim (find s m) [ none ↦ none | some instances ↦ find i instances ]

pub find_service-some :
    (key : ℕ) (m : Map Service (Map InstanceId ℕ)) (s : Service) (i : InstanceId)
    → AllDistinct m
    → find_service key m ≡ some (s, i)
    → key_in s i m ≡ some key
unfolding find_service key_in find
find_service-some key [] s i d e = cc
find_service-some key ((t, instances) ∷ rest) s i d e =
    elim (Option-cases (find_instance key instances)) [
      | inl missing ↦ ground (arith, find_service-some key rest s i d.2, service_beq_iff t s, d.0)
      | inr (j, at) ↦ ground (arith, find_instance-some key instances j d.1 at, service_beq_iff t s)
    ]

pub find_service-none :
    (key : ℕ) (m : Map Service (Map InstanceId ℕ)) (s : Service) (i : InstanceId)
    → find_service key m ≡ none
    → key_in s i m ≢ some key
unfolding find_service key_in find
find_service-none key [] s i e f = cc
find_service-none key ((t, instances) ∷ rest) s i e f =
    ground (
      arith,
      find_service-none key rest s i,
      find_instance-none key instances i,
      service_beq_iff t s,
    )

pub insert_or_assign-AllDistinct :
    (s : Service) (instances : Map InstanceId ℕ) (m : Map Service (Map InstanceId ℕ))
    → Distinct instances
    → AllDistinct m
    → AllDistinct (insert_or_assign s instances m)
unfolding insert_or_assign find
insert_or_assign-AllDistinct s instances [] v d = (refl, v, tt)
insert_or_assign-AllDistinct s instances ((t, old) ∷ rest) v d = ground (
  arith,
  service_beq_iff t s,
  service_beq_iff s t,
  find-insert_or_assign t s instances rest,
  insert_or_assign-AllDistinct s instances rest v d.2,
)

pub find-AllDistinct :
    (s : Service) (m : Map Service (Map InstanceId ℕ))
    → AllDistinct m
    → Distinct (value_or (find s m) [])
unfolding find
find-AllDistinct s [] d = tt
find-AllDistinct s ((t, instances) ∷ rest) d = ground (arith, find-AllDistinct s rest d.2)
