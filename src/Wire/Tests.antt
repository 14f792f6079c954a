-- ===== src/Wire/Tests.antt =====
-- A frame of six bytes, and the path of a service with the number 7.
use inc_someip_gateway.Base.{
  ℕ, ◌≡◌, ◌+◌, ◌<◌, ◌≤◌, ◌%◌, refl, List, [], ◌∷◌, some, arith, length, replicate,
}
use inc_someip_gateway.Strings.Fixed.{FixedString, fixed_string_to_string, fixed_string_from_string}
use inc_someip_gateway.Wire.Frame.{
  Layout, IsLayout, Accepted, check_and_cast, check_and_cast-Accepted,
}
use inc_someip_gateway.Wire.Paths.{
  NoSlash, slash, drop_slashes, make_path, max_shared_memory_path_size, make_path_IsName, path_text,
  flatten_service_type_name, replace_slashes,
}

-- The length stands in the second byte.
abbrev second_byte : List ℕ → ℕ
second_byte [] = 0
second_byte (b ∷ []) = 0
second_byte (b ∷ c ∷ rest) = c

abbrev reply_layout : Layout
reply_layout = record {
  type = 2;
  payload_size = 2;
  payload_offset = 4;
  frame_size = 6;
  alignment = 2;
  read_payload_size = second_byte;
}

reply_layout-IsLayout : IsLayout reply_layout
reply_layout-IsLayout = record { header = omega arith; within = omega arith }

abbrev reply_bytes : List ℕ
reply_bytes = 2 ∷ 2 ∷ 0 ∷ 0 ∷ 1 ∷ 0 ∷ []

check_and_cast-Accepted_example :
    (Accepted reply_layout 8 reply_bytes → check_and_cast reply_layout 8 reply_bytes ≡ some 12)
    × ((p : ℕ)
        → check_and_cast reply_layout 8 reply_bytes ≡ some p
        → Accepted reply_layout 8 reply_bytes × (8 < p) × (p + 2 ≤ 8 + length reply_bytes))
check_and_cast-Accepted_example =
    check_and_cast-Accepted reply_layout 8 reply_bytes reply_layout-IsLayout

-- The last decimal digit, for the numbers below ten.
abbrev digit : ℕ → List ℕ
digit n = (b'0' + n % 10) ∷ []

digit-NoSlash : (n : ℕ) → NoSlash (digit n)
digit-NoSlash n = (omega arith, tt)

abbrev radar_path : FixedString
radar_path = record { size = 4; chars = b'/' ∷ b'r' ∷ b'_' ∷ b'7' ∷ replicate 251 0 }

make_path_IsName_example :
    (rest : List ℕ) × (fixed_string_to_string radar_path ≡ slash ∷ rest)
    × NoSlash rest
    × (length rest < max_shared_memory_path_size)
unfolding make_path path_text flatten_service_type_name drop_slashes replace_slashes
    fixed_string_from_string
make_path_IsName_example =
    make_path_IsName digit digit-NoSlash [] (b'/' ∷ b'r' ∷ []) 7 radar_path tt refl
