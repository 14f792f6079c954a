-- ===== src/Wire/Paths.antt =====
-- The names of shared memory objects, made by score/gateway_ipc_binding/impl/gateway_ipc_binding.cpp.
-- `std::to_string` is a parameter: the decimal digits of a number, none of which is a slash.
use inc_someip_gateway.Base.{
  ℕ, ◌≡◌, ◌≢◌, refl, List, [], ◌∷◌, ◌++◌, ◌==◌, arith, Result, ok, if◌then◌else◌, length, ◌<◌,
}
use inc_someip_gateway.Strings.Fixed.{
  Error, FixedString, fixed_string_from_string, fixed_string_to_string, fixed_string_roundtrip,
  length-le_of_ok,
}

abbrev pub slash : ℕ
slash = b'/'

abbrev pub underscore : ℕ
underscore = b'_'

-- `NAME_MAX`.
abbrev pub max_shared_memory_path_size : ℕ
max_shared_memory_path_size = 255

unfoldable pub drop_slashes : List ℕ → List ℕ
drop_slashes [] = []
drop_slashes (c ∷ cs) = let rest = drop_slashes cs in if c == slash then rest else c ∷ cs

unfoldable pub replace_slashes : List ℕ → List ℕ
replace_slashes [] = []
replace_slashes (c ∷ cs) = (if c == slash then underscore else c) ∷ replace_slashes cs

unfoldable pub flatten_service_type_name : List ℕ → List ℕ
flatten_service_type_name name = replace_slashes (drop_slashes name)

-- `counterpart_`.
abbrev pub counterpart_text : List ℕ
counterpart_text =
    b'c' ∷ b'o' ∷ b'u' ∷ b'n' ∷ b't' ∷ b'e' ∷ b'r' ∷ b'p' ∷ b'a' ∷ b'r' ∷ b't' ∷ b'_' ∷ []

abbrev pub counterpart_prefix : List ℕ
counterpart_prefix = slash ∷ counterpart_text

-- No character is a slash.
abbrev pub NoSlash : List ℕ → Type 0
NoSlash [] = Unit
NoSlash (c ∷ cs) = (c ≢ slash) × NoSlash cs

NoSlash-append : (xs ys : List ℕ) → NoSlash xs → NoSlash ys → NoSlash (xs ++ ys)
NoSlash-append [] ys h k = k
NoSlash-append (x ∷ xs) ys h k = (h.0, NoSlash-append xs ys h.1 k)

replace_slashes-NoSlash : (cs : List ℕ) → NoSlash (replace_slashes cs)
unfolding replace_slashes
replace_slashes-NoSlash [] = tt
replace_slashes-NoSlash (c ∷ cs) = (ground arith, replace_slashes-NoSlash cs)

module _ (to_string : ℕ → List ℕ) where
  unfoldable pub path_text : List ℕ → List ℕ → ℕ → List ℕ
  path_text prefix name service_id =
      prefix ++ flatten_service_type_name name ++ underscore ∷ to_string service_id

  unfoldable pub make_path : List ℕ → List ℕ → ℕ → Result Error FixedString
  unfolding path_text
  make_path prefix name service_id =
      fixed_string_from_string max_shared_memory_path_size (path_text prefix name service_id)

  unfoldable pub make_shared_memory_path : List ℕ → ℕ → Result Error FixedString
  make_shared_memory_path name service_id = make_path (slash ∷ []) name service_id

  unfoldable pub make_counterpart_shared_memory_path : List ℕ → ℕ → Result Error FixedString
  make_counterpart_shared_memory_path name service_id = make_path counterpart_prefix name service_id

  NoSlash-path :
      ((n : ℕ) → NoSlash (to_string n))
      → (prefix name : List ℕ) (service_id : ℕ) → NoSlash prefix
      → NoSlash (prefix ++ flatten_service_type_name name ++ underscore ∷ to_string service_id)
  unfolding flatten_service_type_name
  NoSlash-path digits prefix name service_id clean =
      NoSlash-append _ _ (NoSlash-append _ _ clean (replace_slashes-NoSlash (drop_slashes name)))
        (omega arith, digits service_id)

  -- A path that is made is one slash and then characters none of which is a slash: the form of the
  -- name of a POSIX shared memory object.
  pub make_path_IsName :
      ((n : ℕ) → NoSlash (to_string n))
      → (prefix name : List ℕ) (service_id : ℕ) (s : FixedString) → NoSlash prefix
      → make_path (slash ∷ prefix) name service_id ≡ ok s
      → (rest : List ℕ) × (fixed_string_to_string s ≡ slash ∷ rest)
        × NoSlash rest
        × (length rest < max_shared_memory_path_size)
  unfolding make_path
  make_path_IsName digits prefix name service_id s clean e =
      let rest = prefix ++ flatten_service_type_name name ++ underscore ∷ to_string service_id in
      let same = (fixed_string_roundtrip max_shared_memory_path_size (slash ∷ rest)).1 s e in
      let short = length-le_of_ok max_shared_memory_path_size (slash ∷ rest) s e in
      (rest, same.0, NoSlash-path digits prefix name service_id clean, omega arith)

  -- The counterpart's path of one service type is the path of another: of the type whose name is
  -- the same with `counterpart_` in front.
  counterpart_path_collides :
      (name : List ℕ) (service_id : ℕ)
      → make_counterpart_shared_memory_path name service_id
        ≡ make_shared_memory_path (counterpart_text ++ drop_slashes name) service_id
  unfolding make_counterpart_shared_memory_path make_shared_memory_path make_path
      flatten_service_type_name drop_slashes replace_slashes
  counterpart_path_collides name service_id = refl
