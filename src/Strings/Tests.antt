-- ===== src/Strings/Tests.antt =====
-- Fixed strings of three characters.
use inc_someip_gateway.Base.{◌≡◌, refl, true, [], ◌∷◌, err}
use inc_someip_gateway.Strings.{list_beq}
use inc_someip_gateway.Strings.Fixed.{
  fixed_size_container_too_small, fixed_string_from_string, equals, take,
}

-- What lies behind the text does not matter.
same_text :
    equals
      (record { size = 2; chars = b'h' ∷ b'i' ∷ 0 ∷ [] })
      (record { size = 2; chars = b'h' ∷ b'i' ∷ b'x' ∷ [] })
    ≡ true
unfolding equals take list_beq
same_text = refl

too_long : fixed_string_from_string 1 (b'h' ∷ b'i' ∷ []) ≡ err fixed_size_container_too_small
unfolding fixed_string_from_string
too_long = refl
