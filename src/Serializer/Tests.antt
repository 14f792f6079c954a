-- ===== src/Serializer/Tests.antt =====
-- A message of two bytes.
use inc_someip_gateway.Base.{◌≡◌, refl, [], ◌∷◌, none, some}
use inc_someip_gateway.Strings.Fixed.{take}
use inc_someip_gateway.Serializer.{ok, serialization_failure, PreSerialized, copy_to, serialize}

abbrev two_bytes : PreSerialized
two_bytes = record { size = 2; bytes = 5 ∷ 6 ∷ 7 ∷ [] }

serialized :
    serialize (some (9 ∷ 9 ∷ 9 ∷ [])) 3 (some two_bytes) ≡ (ok, some (5 ∷ 6 ∷ 9 ∷ []), some 2)
unfolding serialize take copy_to
serialized = refl

too_large :
    serialize (some (9 ∷ [])) 1 (some two_bytes) ≡ (serialization_failure, some (9 ∷ []), none)
unfolding serialize
too_large = refl
